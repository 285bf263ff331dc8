-- ===== src/Runtime/Pair.antt =====
-- `tls13_exporter_pair_with_pins` of runtime/core/tls_provider.cpp: a client and a server in one
-- process that export the same key. OpenSSL's calls are a parameter over an unknown state.
pub mod Agreement
use ghost_media.Base.{
  ℕ, zero, suc, Bool, true, false, not, ◌&&◌, ◌||◌, Option, none, some, List, [], ◌∷◌, ◌==◌,
  if◌then◌else◌, replicate,
}
use ghost_media.Abi.{
  Status, ok, bad_argument, unauthorized, internal, Bytes, null, memory, size, contents,
}
use ghost_media.Text.{codes}
use ghost_media.Runtime.Tls.{Progress, complete, want_read, want_write, broken, same_bytes}

-- One of the two connections: its handshake, what was verified and agreed, and its export, with
-- the bytes that the export writes whether it succeeds or not.
pub record Peer (W : Type 0) : Type 0 where
  pub do_handshake : W → Progress × W
  pub verified : W → Bool
  pub alpn : W → List ℕ
  pub export : W → (Bool × List ℕ) × W

-- `connect` makes both contexts and connections with the pinned digests, and joins them; none if
-- one of those calls fails.
pub record PairLibrary (W : Type 0) : Type 0 where
  pub connect : (server_pin client_pin : List ℕ) → Option W
  pub client : List ℕ → Peer W
  pub server : List ℕ → Peer W

-- The caller's two arrays.
pub record Outputs : Type 0 where
  pub client : List ℕ
  pub server : List ℕ

-- The status, and what the call leaves in the arrays.
pub record PairResult : Type 0 where
  pub status : Status
  pub outputs : Outputs

-- `fill(0u)` on an array.
unfoldable pub fill : List ℕ → List ℕ
fill [] = []
fill (x ∷ xs) = 0 ∷ fill xs

abbrev pub fill_both : Outputs → Outputs
fill_both o = record { client = fill o.client; server = fill o.server }

-- An array after bytes were written to it from its front on, none beyond its end.
unfoldable pub store : List ℕ → List ℕ → List ℕ
store [] xs = xs
store (b ∷ bs) [] = []
store (b ∷ bs) (x ∷ xs) = b ∷ store bs xs

abbrev pub leave : Status → Outputs → PairResult
leave status outputs = record { status = status; outputs = outputs }

abbrev pub is_given : Bytes → ℕ → Bool
is_given (null n) expected = false
is_given (memory bytes) expected = size (memory bytes) == expected

-- `complete` and whether the loop goes on.
pub record Progressed (W : Type 0) : Type 0 where
  pub completed : Bool
  pub accepted : Bool
  pub world : W

abbrev accepts : Progress → Bool
accepts broken = false
accepts _ = true

abbrev completes : Progress → Bool
completes complete = true
completes _ = false

unfoldable pub compare_outputs : Outputs → PairResult
unfolding same_bytes fill
compare_outputs o =
    if not (same_bytes o.client o.server) then leave internal (fill_both o) else leave ok o

module _ {W : Type 0} where
  unfoldable pub handshake_complete : Peer W → Bool → W → Progressed W
  handshake_complete peer true w = record { completed = true; accepted = true; world = w }
  handshake_complete peer false w =
      let (progress, next) = peer.do_handshake w in
      record { completed = completes progress; accepted = accepts progress; world = next }

  -- Both connections after the loop; none if a handshake broke.
  unfoldable pub shake_hands :
      (rounds : ℕ)
      → Peer W
      → Peer W
      → (client_done server_done : Bool) → W
      → Option ((Bool × Bool) × W)
  unfolding handshake_complete
  shake_hands zero client server client_done server_done w = some ((client_done, server_done), w)
  shake_hands (suc rounds) client server client_done server_done w =
      elim (not client_done || not server_done) [
        | false ↦ some ((client_done, server_done), w)
        | true ↦
            let c = handshake_complete client client_done w in
            elim c.accepted [
              | false ↦ none
              | true ↦
                  let s = handshake_complete server server_done c.world in
                  elim s.accepted [
                    | false ↦ none
                    | true ↦ shake_hands rounds client server c.completed s.completed s.world
                  ]
            ]
      ]

  unfoldable pub is_agreed : Peer W → W → Bool
  unfolding same_bytes
  is_agreed peer w = peer.verified w && same_bytes (peer.alpn w) (codes "ghostmedia/1")

  -- The second export is tried only if the first succeeds. One that fails may have written, too.
  unfoldable pub export_both : Peer W → Peer W → Outputs → W → PairResult
  unfolding compare_outputs store
  export_both client server o w =
      let (first, exported) = client.export w in
      let stored = record o { client = store first.1 o.client } in
      if not first.0
      then leave internal (fill_both stored)
      else (let (second, end) = server.export exported in
          let both = record stored { server = store second.1 stored.server } in
          if not second.0 then leave internal (fill_both both) else compare_outputs both)

  unfoldable pub export_shaken : Peer W → Peer W → Outputs → Option ((Bool × Bool) × W) → PairResult
  unfolding is_agreed export_both
  export_shaken client server o none = leave unauthorized o
  export_shaken client server o (some ((client_done, server_done), w)) =
      if not client_done || not server_done || not (is_agreed client w) || not (is_agreed server w)
      then leave unauthorized o
      else export_both client server o w

  unfoldable pub export_connected : Peer W → Peer W → Outputs → Option W → PairResult
  unfolding shake_hands export_shaken
  export_connected client server o none = leave internal o
  export_connected client server o (some w) =
      export_shaken client server o (shake_hands 128 client server false false w)

  -- Behind the two calls of `fill`.
  unfoldable pub export_filled :
      PairLibrary W
      → (client_expected_server server_expected_client context : Bytes) → Outputs
      → PairResult
  unfolding export_connected
  export_filled library client_expected_server server_expected_client context o =
      if not (is_given context 32)
        || not (is_given client_expected_server 32)
        || not (is_given server_expected_client 32)
      then leave bad_argument o
      else export_connected (library.client (contents context)) (library.server (contents context))
          o (library.connect (contents client_expected_server) (contents server_expected_client))

  unfoldable pub exporter_pair_with_pins :
      PairLibrary W
      → (client_expected_server server_expected_client context : Bytes) → Outputs
      → PairResult
  unfolding export_filled
  exporter_pair_with_pins library client_expected_server server_expected_client context o =
      export_filled library client_expected_server server_expected_client context (fill_both o)
