-- ===== src/Evaluator/Hashing.antt =====
-- core/src/hashing.rs. `murmur3_32` reads from memory, so its error case does not arise.
use checkgate.Common.{ℕ, ◌^◌, ◌<◌, List}
use checkgate.External.{External}

unfoldable pub murmurhash3_x86_32 : External → List ℕ → ℕ → ℕ
murmurhash3_x86_32 ext key seed = ext.murmur3_32 key seed

pub murmurhash3_x86_32_bound :
    (ext : External) (key : List ℕ) (seed : ℕ) → murmurhash3_x86_32 ext key seed < 2 ^ 32
unfolding murmurhash3_x86_32
murmurhash3_x86_32_bound ext key seed = ext.murmur3_32_bound key seed
