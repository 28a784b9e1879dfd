-- ===== src/Page/Nullable.antt =====
-- A text that may be null, as `getItem` and `URLSearchParams.get` return it, in tests, in
-- comparisons and where a text is wanted.
use Prim.Native.String.{[], ◌∷◌}
use sunbird_devops.Base.{
  ℕ, String, Bool, true, false, not, Option, none, some, ◌==◌, code, ltb, leb, eqb, if◌then◌else◌,
}
use sunbird_devops.Js.Text.{to_number}

-- `!!v`
abbrev pub truthy_text : Option String → Bool
truthy_text none = false
truthy_text (some s) = not (s == "")

-- the text that null turns into in a concatenation or in `setItem`
abbrev pub text_or_null : Option String → String
text_or_null none = "null"
text_or_null (some s) = s

-- `v === t`, for a text `t`
abbrev pub is_equal : Option String → String → Bool
is_equal none t = false
is_equal (some s) t = s == t

-- `v >= n`, for a number `n`: null counts as 0, and what is no number is never greater.
unfoldable pub at_least : Option String → ℕ → Bool
at_least none n = leb n 0
at_least (some s) n = elim (to_number s) [ some m ↦ leb n m | none ↦ false ]

-- `t <= s` on texts, by the codes of their characters
unfoldable pub text_le : String → String → Bool
text_le [] s = true
text_le (c ∷ t) [] = false
text_le (c ∷ t) (d ∷ s) =
    let rest = text_le t s in if eqb (code c) (code d) then rest else ltb (code c) (code d)

-- `v >= t`, for a text `t` of a number that is not 0: two texts compare as texts, and null as 0.
unfoldable pub at_least_text : Option String → String → Bool
unfolding text_le
at_least_text none t = false
at_least_text (some s) t = text_le t s
