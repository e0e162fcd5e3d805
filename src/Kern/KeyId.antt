-- ===== src/Kern/KeyId.antt =====
-- The packing of a namespace and a local key, of 16 bits each, in a KeyId of 32
-- (include/Xemeiah/kern/keycache.h, format/core_types.h).
use xemeiah.Prelude.{ℕ, ◌+◌, ◌*◌, ◌/◌, ◌%◌, ◌^◌, ◌<◌, ◌≡◌, arith}

unfoldable pub get_namespace_id : ℕ → ℕ
get_namespace_id key_id = key_id / 2 ^ 16

unfoldable pub get_local_key_id : ℕ → ℕ
get_local_key_id key_id = key_id % 2 ^ 16

unfoldable pub get_key_id : ℕ → ℕ → ℕ
get_key_id ns_id local_key_id = (ns_id * 2 ^ 16 + local_key_id) % 2 ^ 32

-- A namespace and a local key of 16 bits make a key of 32 bits, from which both come back; and a key
-- of 32 bits is made of its two parts.
pub get_key_id-parts :
    (ns_id local_key_id key_id : ℕ)
    → ns_id < 2 ^ 16
    → local_key_id < 2 ^ 16
    → key_id < 2 ^ 32
    → (get_namespace_id (get_key_id ns_id local_key_id) ≡ ns_id)
      × (get_local_key_id (get_key_id ns_id local_key_id) ≡ local_key_id)
      × (get_key_id ns_id local_key_id < 2 ^ 32)
      × (get_key_id (get_namespace_id key_id) (get_local_key_id key_id) ≡ key_id)
unfolding get_namespace_id get_local_key_id get_key_id
get_key_id-parts ns_id local_key_id key_id a b c =
    (omega arith, omega arith, omega arith, omega arith)
