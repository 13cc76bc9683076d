-- ===== src/Kms/Azure/Urls.antt =====
-- The vault's address with or without slashes at its end.
use Prim.Native.String
use Prim.Native.String.append
use genesis_operator.Prelude.{ℕ, zero, suc, String, Option, ◌≡◌, refl}
use genesis_operator.Kms.Azure.{trim_slashes, new, operation_url}

-- n slashes
abbrev pub slashes : ℕ → String
slashes zero = ""
slashes (suc n) = String.◌++◌ "/" (slashes n)

trim_slashes-slashes : (n : ℕ) → trim_slashes (slashes n) ≡ ""
unfolding trim_slashes
trim_slashes-slashes zero = refl
trim_slashes-slashes (suc n) =
    rw (append.cons _ "" (slashes n), append.nil (slashes n)) (rw (trim_slashes-slashes n) refl)

trim_slashes-append :
    (s : String) (n : ℕ) → trim_slashes (String.◌++◌ s (slashes n)) ≡ trim_slashes s
unfolding trim_slashes
trim_slashes-append String.[] n = rw (append.nil (slashes n)) (trim_slashes-slashes n)
trim_slashes-append (String.◌∷◌ c s) n =
    rw (append.cons c s (slashes n)) (rw (trim_slashes-append s n) refl)

-- Slashes at the end of the address make no difference to the URL of an operation.
pub operation_url-slashes :
    (vault_url key_name access_token operation : String) (key_version : Option String) (n : ℕ)
    → operation_url
        (new (String.◌++◌ vault_url (slashes n)) key_name key_version access_token)
        operation
      ≡ operation_url (new vault_url key_name key_version access_token) operation
unfolding new
operation_url-slashes vault_url key_name access_token operation key_version n =
    rw (trim_slashes-append vault_url n)
