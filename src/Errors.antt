-- ===== src/Errors.antt =====
-- The exceptions of the storage and domain layers (src/macmini_ai_hub/storage/errors.py and the
-- `ValueError`s of the domain and a `TypeError` of Python), and the results of code that may raise one.
use ai_infrastructure_as_cod.Prelude.{Bool, true, false, ◌≡◌, refl, ◌⊎◌, inl, inr}

-- `validation_error` is pydantic's, a `ValueError` as is `invalid_transition`.
pub data Error : Type 0 where
  value_error invalid_transition validation_error type_error : Error
  storage_unavailable storage_busy storage_corruption migration_error : Error
  data_integrity record_not_found : Error
  duplicate_task duplicate_run duplicate_artifact idempotency_conflict : Error

-- `except ValueError`
unfoldable pub is_value_error : Error → Bool
is_value_error value_error = true
is_value_error invalid_transition = true
is_value_error validation_error = true
is_value_error _ = false

-- `except StorageError`
unfoldable pub is_storage_error : Error → Bool
is_storage_error type_error = false
is_storage_error value_error = false
is_storage_error invalid_transition = false
is_storage_error validation_error = false
is_storage_error _ = true

-- `except DataIntegrityError`
unfoldable pub is_data_integrity_error : Error → Bool
is_data_integrity_error data_integrity = true
is_data_integrity_error duplicate_task = true
is_data_integrity_error duplicate_run = true
is_data_integrity_error duplicate_artifact = true
is_data_integrity_error idempotency_conflict = true
is_data_integrity_error _ = false

pub data Result {ℓ} (A : Type ℓ) : Type ℓ where
  err : Error → Result A
  ok : A → Result A

-- `if c: raise e`
abbrev pub raise_if : Bool → Error → Result (Unit {0})
raise_if false error = ok tt
raise_if true error = err error

infixl 5 ◌>>=◌ ◌>>◌
abbrev pub ◌>>=◌ {ℓ κ} : {S : Type ℓ} {T : Type κ} → Result S → (S → Result T) → Result T
err error >>= next = err error
ok value >>= next = next value

abbrev pub ◌>>◌ {κ} : {T : Type κ} → Result (Unit {0}) → Result T → Result T
first >> second = first >>= λ _. second

pub Result-cases {ℓ} :
    {A : Type ℓ} (r : Result A) → ((a : A) × (r ≡ ok a)) ⊎ ((e : Error) × (r ≡ err e))
Result-cases (ok a) = inl (a, refl)
Result-cases (err e) = inr (e, refl)
