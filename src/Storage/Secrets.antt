-- ===== src/Storage/Secrets.antt =====
-- The tests of src/macmini_ai_hub/storage/models.py that keep secrets out of stored records.
use ai_infrastructure_as_cod.Prelude.{
  ℕ, Bool, true, false, ◌&&◌, ◌||◌, String, Option, none, some, List, [], ◌∷◌, ◌==◌, nat_eq,
  is_some, ◌≡◌, refl,
}
use ai_infrastructure_as_cod.Errors.{Result, ok, raise_if, validation_error}
use ai_infrastructure_as_cod.Domain.Json.{Fields, codes, normalized, lowered, find_in_fields}

-- Texts as code points: equal, a prefix, somewhere inside, a suffix.
same_codes : List ℕ → List ℕ → Bool
same_codes [] [] = true
same_codes (a ∷ s) (b ∷ t) = a == b && same_codes s t
same_codes _ _ = false

starts_with : List ℕ → List ℕ → Bool
starts_with s [] = true
starts_with [] (b ∷ t) = false
starts_with (a ∷ s) (b ∷ t) = a == b && starts_with s t

has_part : List ℕ → List ℕ → Bool
unfolding starts_with
has_part [] t = starts_with [] t
has_part (a ∷ s) t = starts_with (a ∷ s) t || has_part s t

ends_with : List ℕ → List ℕ → Bool
unfolding same_codes
ends_with [] t = same_codes [] t
ends_with (a ∷ s) t = same_codes (a ∷ s) t || ends_with s t

-- some word of the list stands in that relation to the text
any_word : (List ℕ → List ℕ → Bool) → List ℕ → List String → Bool
unfolding codes
any_word relation s [] = false
any_word relation s (w ∷ ws) = relation s (codes w) || any_word relation s ws

abbrev forbidden_response_keys : List String
forbidden_response_keys =
    "access_token" ∷ "api_key" ∷ "apikey" ∷ "authorization" ∷ "client_secret" ∷ "cookie"
    ∷ "credentials" ∷ "password" ∷ "private_key" ∷ "refresh_token" ∷ "secret" ∷ "token" ∷ []

abbrev forbidden_response_suffixes : List String
forbidden_response_suffixes = "_password" ∷ "_secret" ∷ "_token" ∷ "_api_key" ∷ "_private_key" ∷ []

-- the test of one key in `_find_forbidden_key`
unfoldable pub is_forbidden_response_key : String → Bool
unfolding any_word same_codes ends_with normalized
is_forbidden_response_key key =
    any_word same_codes (normalized key) forbidden_response_keys
    || any_word ends_with (normalized key) forbidden_response_suffixes

-- `reject_secret_response_fields`
unfoldable pub reject_secret_response_fields : Option Fields → Result (Unit {0})
reject_secret_response_fields none = ok tt
reject_secret_response_fields (some response) =
    raise_if (is_some (find_in_fields is_forbidden_response_key response [])) validation_error

abbrev secret_prefixes : List String
secret_prefixes = "sk-" ∷ "xapp-" ∷ "xoxa-" ∷ "xoxb-" ∷ "xoxp-" ∷ "xoxr-" ∷ "xoxs-" ∷ []

abbrev secret_markers : List String
secret_markers = "api_key" ∷ "apikey" ∷ "password" ∷ "private_key" ∷ "secret=" ∷ "token=" ∷ []

-- `_reject_secret_shaped_value`: whether it raises
unfoldable pub is_secret_shaped : String → Bool
unfolding any_word starts_with has_part lowered
is_secret_shaped value =
    any_word starts_with (lowered value) secret_prefixes
    || any_word has_part (lowered value) secret_markers

secret_examples :
    (is_secret_shaped "SK-abc" ≡ true)
    × (is_secret_shaped "my-password-1" ≡ true)
    × (is_secret_shaped "task-update:TASK-1:failed" ≡ false)
    × (is_forbidden_response_key "Slack-Bot-TOKEN" ≡ true)
    × (is_forbidden_response_key "tokens" ≡ false)
unfolding is_secret_shaped is_forbidden_response_key
secret_examples = (refl, refl, refl, refl, refl)
