-- ===== src/Telemetry/FingerPrint.antt =====
-- `FPoptions` of telemetry_service.js: what Fingerprint2 is told to leave out of a fingerprint, and
-- what the user agent is shortened to. UAParser is a parameter.
use Prim.Native.String.{◌++◌}
use sunbird_devops.Base.{String, true, false, ◌≡◌, refl, Option, none, some, ◌==◌, if◌then◌else◌}
use sunbird_devops.Js.Value.{
  Value, bool, num, str, arr, nil, obj, Fields, end, field, truthy, get, fields,
}
use sunbird_devops.Js.Int.{pos}

-- The names that UAParser finds; `none` is undefined.
pub record Agent : Type 0 where
  pub os_name : Option String
  pub browser_name : Option String

-- the text of a name in a concatenation
abbrev name_text : Option String → String
name_text none = "undefined"
name_text (some name) = name

module _ (parse : Value → Agent) where
  -- `FPoptions.preprocessor`
  unfoldable pub preprocessor : String → Value → Value
  preprocessor key value =
      let agent = parse value in
      if key == "userAgent"
      then str (name_text agent.os_name ++ (" " ++ name_text agent.browser_name))
      else value

  -- A user agent of the same system and browser, in another version, is shortened to the same.
  preprocessor-same :
      (key : String) (a b : Value)
      → (parse a).os_name ≡ (parse b).os_name
      → (parse a).browser_name ≡ (parse b).browser_name
      → (key == "userAgent") ≡ true
      → preprocessor key a ≡ preprocessor key b
  unfolding preprocessor
  preprocessor-same key a b os browser agent = rw (agent, os, browser) refl

-- `FPoptions.audio`, `fonts` and `screen`
abbrev audio : Fields
audio = field "timeout" (num (pos 1000)) (field "excludeIOS11" (bool true) end)

abbrev fonts : Fields
fonts = field "swfContainerId" (str "fingerprintjs2") (
    field "swfPath" (str "flash/compiled/FontList.swf")
      (field "userDefinedFonts" (arr nil) (field "extendedJsFonts" (bool false) end)))

abbrev screen : Fields
screen = field "detectScreenOrientation" (bool true) end

-- `FPoptions.excludes`
unfoldable pub excludes : Fields
excludes = field "enumerateDevices" (bool true) (
    field "pixelRatio" (bool true) (
      field "doNotTrack" (bool true) (
        field "fontsFlash" (bool true) (
          field "canvas" (bool true) (
            field "screenResolution" (bool true) (
              field "availableScreenResolution" (bool true) (
                field "touchSupport" (bool true) (
                  field "plugins" (bool true) (
                    field "webgl" (bool true) (
                      field "audio" (bool true) (
                        field "language" (bool true)
                          (field "deviceMemory" (bool true) end))))))))))))

-- `FPoptions`, but for its function and its one regular expression
unfoldable pub options : Fields
unfolding excludes
options = field "audio" (obj audio) (
    field "fonts" (obj fonts) (
      field "screen" (obj screen) (
        field "plugins" (obj (field "excludeIE" (bool false) end)) (
          field "extraComponents" (arr nil) (
            field "excludes" (obj excludes) (
              field "NOT_AVAILABLE" (str "not available")
                (field "ERROR" (str "error") (field "EXCLUDED" (str "excluded") end))))))))

-- The component that the preprocessor is for is not excluded.
keeps_user_agent : truthy (get "userAgent" (fields (get "excludes" options))) ≡ false
unfolding options get
keeps_user_agent = refl
