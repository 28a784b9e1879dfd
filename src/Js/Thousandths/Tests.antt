-- ===== src/Js/Thousandths/Tests.antt =====
-- Runs of the product.
use sunbird_devops.Base.{◌≡◌, refl, some, none}
use sunbird_devops.Js.Int.{pos, negsuc}
use sunbird_devops.Js.Text.{to_number}
use sunbird_devops.Js.Thousandths.{text_thousand}

runs :
    (text_thousand "0.5" ≡ some (pos 500))
    × (text_thousand " -60" ≡ some (negsuc 59999))
    × (text_thousand "+1.2345 " ≡ some (pos 1234))
    × (text_thousand "12s" ≡ none)
unfolding text_thousand to_number
runs = (refl, refl, refl, refl)
