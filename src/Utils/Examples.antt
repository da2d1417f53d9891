-- ===== src/Utils/Examples.antt =====
-- The text helpers at short texts.
use dingolytics_backend.Base.{[], ◌∷◌, ◌≡◌, refl}
use dingolytics_backend.Base.Text.{Text, codes}
use dingolytics_backend.Utils.{comment_here, strip_comments, squeeze, gen_query_hash, slugify}

abbrev query : Text
query = b's' ∷ b' ' ∷ b'X' ∷ []

abbrev same : Text → Text
same text = text

query_hash : gen_query_hash same query ≡ codes "sx"
unfolding gen_query_hash squeeze strip_comments comment_here
query_hash = refl

sales_slug : slugify (codes "Sales 2") ≡ codes "sales-2"
unfolding slugify
sales_slug = refl
