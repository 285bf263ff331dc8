-- ===== src/Runtime/Tls/Ends.antt =====
-- The handshake ends.
use ghost_media.Base.{◌≡◌, some}
use ghost_media.Abi.{Status}
use ghost_media.Runtime.Tls.{Tls, Result}

-- The call gives a result: no loop lacks fuel.
abbrev pub Ends : {W : Type 0} → Result W → Type 0
Ends {W} o = (r : Status × W) × (o ≡ some r)
