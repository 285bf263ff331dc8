-- ===== src/Crypto.antt =====
-- shared/core/gm_crypto.cpp: identities, trust, the TLS policy and the media keys.
pub mod Trust
pub mod Policy
pub mod PeerId
pub mod Sha256
pub mod Exporter
pub mod Keys
use ghost_media.Base.{ℕ, Bool, true, ◌&&◌, ◌||◌, List, [], ◌∷◌, ◌==◌}

-- `all_zero` on a whole array.
unfoldable pub all_zero : List ℕ → Bool
all_zero [] = true
all_zero (x ∷ xs) = x == 0 && all_zero xs

abbrev pub flag_is_bool : ℕ → Bool
flag_is_bool flag = flag == 0 || flag == 1
