-- ===== src/Config/Examples.antt =====
-- Masking and its way back at the options of a data source with a secret password.
use dingolytics_backend.Base.{String, true, some, [], ◌∷◌, ◌≡◌, refl, string_eq}
use dingolytics_backend.Base.Dict.{Dict}
use dingolytics_backend.Base.Result.{ok}
use dingolytics_backend.Config.{
  Schema, ConfigurationContainer, Validator, is_secret, mask, new_value, merge, schema_of, to_dict,
  update,
}
use dingolytics_backend.Config.Masking.{update-to_dict}

abbrev schema : Schema String
schema = record { properties = []; secret = some ("password" ∷ []) }

abbrev source : ConfigurationContainer String
source = record { config = ("user", "ada") ∷ ("password", "s3cret") ∷ []; schema = some schema }

abbrev masked : Dict String String
masked = ("user", "ada") ∷ ("password", "--------") ∷ []

abbrev accept : Validator String
accept config s = true

abbrev same : String → String
same t = t

source_shown : to_dict same source true ≡ ok masked
unfolding to_dict schema_of mask
source_shown = refl

update-to_dict_example : update same accept source masked ≡ ok source
update-to_dict_example =
    update-to_dict same accept source schema masked refl (refl, (refl, tt)) source_shown refl

password_secret : is_secret schema "password" ≡ true
unfolding is_secret
password_secret = refl

abbrev renamed : Dict String String
renamed = ("password", "--------") ∷ ("user", "bob") ∷ []

abbrev source_after : ConfigurationContainer String
source_after = record source { config = ("password", "s3cret") ∷ ("user", "bob") ∷ [] }

update-renamed : update same accept source renamed ≡ ok source_after
unfolding update schema_of merge new_value is_secret
update-renamed = refl
