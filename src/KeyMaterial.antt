-- ===== src/KeyMaterial.antt =====
-- genesis-core/src/zeroize_mem.rs: secret bytes that are wiped when they are dropped. The calls of
-- `mlock`, `munlock` and `madvise` ask the kernel for protection, ignore its answer and change no
-- byte, so they are not in the model.
use genesis_operator.Prelude.{Bytes, length, replicate, is_empty, if◌then◌else◌}

pub record KeyMaterial : Type 0 where
  pub inner : Bytes

abbrev pub new : Bytes → KeyMaterial
new bytes = record { inner = bytes }

abbrev pub as_bytes : KeyMaterial → Bytes
as_bytes key = key.inner

-- What the buffer holds after `drop`.
unfoldable pub drop_buffer : KeyMaterial → Bytes
drop_buffer key = if is_empty key.inner then key.inner else replicate (length key.inner) 0
