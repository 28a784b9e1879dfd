-- ===== src/Js/Text/Tests.antt =====
-- Runs of the string methods.
use sunbird_devops.Base.{◌≡◌, refl, some, none}
use sunbird_devops.Js.Text.{
  replace_first, index_of, strip_prefix, slice_from, before, to_lower, to_upper, to_number,
  remove_word,
}

runs :
    (replace_first "hide" "" "btn hide hide" ≡ "btn  hide")
    × (index_of "merge." "https://merge.a.b" ≡ some 8)
    × (slice_from 14 "https://merge.a.b" ≡ "a.b")
    × (before b'?' "http://a/b?c=d?e" ≡ "http://a/b")
    × (to_lower "AnDroid" ≡ "android")
    × (to_upper "end" ≡ "END")
    × (to_number "12" ≡ some 12)
    × (to_number " 4.5 " ≡ some 4)
    × (to_number "4a" ≡ none)
    × (to_number "4.5.6" ≡ none)
    × (remove_word "hide" "hide-x hidex a_hide hide" ≡ "-x hidex a_hide ")
unfolding replace_first index_of strip_prefix slice_from before to_lower to_upper to_number
    remove_word
runs = (refl, refl, refl, refl, refl, refl, refl, refl, refl, refl, refl)
