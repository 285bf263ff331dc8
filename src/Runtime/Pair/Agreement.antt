-- ===== src/Runtime/Pair/Agreement.antt =====
-- Both ends of a pair export the same key, or none.
use ghost_media.Base.{
  ℕ, suc, ◌≡◌, ◌≢◌, ◌⊎◌, ◌∙◌, ap, inl, inr, refl, true, false, not, ◌||◌, Bool, Option, none, some,
  List, [], ◌∷◌, Bool-cases, arith, length, replicate,
}
use ghost_media.Abi.{Status, ok, bad_argument, unauthorized, internal, Bytes, contents}
use ghost_media.Text.{codes}
use ghost_media.Runtime.Tls.{same_bytes}
use ghost_media.Runtime.Tls.Handshake.{same_bytes_equal}
use ghost_media.Runtime.Pair.{
  Peer, PairLibrary, PairResult, Outputs, fill, fill_both, store, leave, is_given, shake_hands,
  is_agreed, compare_outputs, export_both, export_shaken, export_connected, export_filled,
  exporter_pair_with_pins,
}

abbrev pub zeros : List ℕ
zeros = replicate 64 0

-- The arrays have the 64 bytes of their type.
pub record Sized (o : Outputs) : Type 0 where
  pub client : length o.client ≡ 64
  pub server : length o.server ≡ 64

-- Both certificates were verified and both ends chose the protocol; the client's export succeeded
-- and both arrays have what it wrote.
pub record Exported {W : Type 0} (client server : Peer W) (o : Outputs) : Type 0 where
  pub world : W
  pub client_verified : client.verified world ≡ true
  pub server_verified : server.verified world ≡ true
  pub client_named : client.alpn world ≡ codes "ghostmedia/1"
  pub server_named : server.alpn world ≡ codes "ghostmedia/1"
  pub succeeded : (client.export world).0.0 ≡ true
  pub key : o.client ≡ store (client.export world).0.1 zeros
  pub same : o.client ≡ o.server

-- The status is ok and both arrays have the key, or it is not and both are zeros.
abbrev pub Agrees : {W : Type 0} → Peer W → Peer W → PairResult → Type 0
Agrees client server r =
    ((r.status ≡ ok) × Exported client server r.outputs)
    ⊎ ((r.status ≢ ok) × (r.outputs.client ≡ zeros) × (r.outputs.server ≡ zeros))

fill-replicate : (xs : List ℕ) → fill xs ≡ replicate (length xs) 0
unfolding fill
fill-replicate [] = refl
fill-replicate (x ∷ xs) = ap (λ t. 0 ∷ t) (fill-replicate xs)

fill-zeros : (xs : List ℕ) → length xs ≡ 64 → fill xs ≡ zeros
fill-zeros xs e = fill-replicate xs ∙ ap (λ n. replicate n 0) e

length-fill : (xs : List ℕ) → length (fill xs) ≡ length xs
unfolding fill
length-fill [] = refl
length-fill (x ∷ xs) = ap (suc) (length-fill xs)

fill_both-Sized : (o : Outputs) → Sized o → Sized (fill_both o)
fill_both-Sized o v = record {
  client = length-fill o.client ∙ v.client;
  server = length-fill o.server ∙ v.server;
}

length-store : (bytes xs : List ℕ) → length (store bytes xs) ≡ length xs
unfolding store
length-store [] xs = refl
length-store (b ∷ bytes) [] = refl
length-store (b ∷ bytes) (x ∷ xs) = ap (suc) (length-store bytes xs)

module _ {W : Type 0} (client server : Peer W) where
  -- An error that fills both arrays.
  cleared-Agrees :
      (status : Status) (o : Outputs)
      → status ≢ ok
      → Sized o
      → Agrees client server (leave status (fill_both o))
  cleared-Agrees status o ne v =
      inr (ne, fill-zeros o.client v.client, fill-zeros o.server v.server)

  compare_outputs-Agrees :
      (o : Outputs)
      → Sized o
      → (o.client ≡ o.server → Exported client server o)
      → Agrees client server (compare_outputs o)
  unfolding compare_outputs
  compare_outputs-Agrees o v good = elim (Bool-cases (same_bytes o.client o.server)) [
    | inl same ↦
        rw (same, compare_outputs) (inl (refl, good (same_bytes_equal o.client o.server same)))
    | inr other ↦ rw (other, compare_outputs) (cleared-Agrees internal o (λ e. cc e) v)
  ]

  is_agreed-parts :
      (peer : Peer W) (w : W)
      → is_agreed peer w ≡ true
      → (peer.verified w ≡ true) × (peer.alpn w ≡ codes "ghostmedia/1")
  unfolding is_agreed
  is_agreed-parts peer w e =
      (ground (arith, e), same_bytes_equal (peer.alpn w) (codes "ghostmedia/1") (ground (arith, e)))

  export_both-Agrees :
      (o : Outputs) (w : W)
      → Sized o
      → o.client ≡ zeros
      → is_agreed client w ≡ true
      → is_agreed server w ≡ true
      → Agrees client server (export_both client server o w)
  unfolding export_both
  export_both-Agrees o w v blank c s =
      let first = client.export w in
      let second = server.export first.1 in
      let stored : Outputs = record o { client = store (first.0).1 o.client } in
      let both : Outputs = record stored { server = store (second.0).1 o.server } in
      let stored_sized : Sized stored = record {
        client = length-store (first.0).1 o.client ∙ v.client;
        server = v.server;
      } in
      let both_sized : Sized both = record {
        client = stored_sized.client;
        server = length-store (second.0).1 o.server ∙ v.server;
      } in
      elim (Bool-cases (first.0).0) [
        | inr failed ↦
            rw (failed, export_both) (cleared-Agrees internal stored (λ e. cc e) stored_sized)
        | inl fine ↦ elim (Bool-cases (second.0).0) [
          | inr failed ↦
              rw (fine, failed, export_both) (cleared-Agrees internal both (λ e. cc e) both_sized)
          | inl fine_too ↦
              rw (fine, fine_too, export_both)
                (compare_outputs-Agrees both both_sized (λ same. record {
                  world = w;
                  client_verified = (is_agreed-parts client w c).0;
                  server_verified = (is_agreed-parts server w s).0;
                  client_named = (is_agreed-parts client w c).1;
                  server_named = (is_agreed-parts server w s).1;
                  succeeded = fine;
                  key = ap (λ t. store (first.0).1 t) blank;
                  same = same;
                }))
        ]
      ]

  export_shaken-Agrees :
      (o : Outputs) (shaken : Option ((Bool × Bool) × W))
      → Sized o
      → Agrees client server (export_shaken client server (fill_both o) shaken)
  unfolding export_shaken
  export_shaken-Agrees o none v = cleared-Agrees unauthorized o (λ e. cc e) v
  export_shaken-Agrees o (some ((c, s), w)) v =
      elim (Bool-cases (not c || not s || not (is_agreed client w) || not (is_agreed server w))) [
        | inl refused ↦ rw (refused, export_shaken) (cleared-Agrees unauthorized o (λ e. cc e) v)
        | inr agreed ↦
            rw (agreed, export_shaken)
              (export_both-Agrees (fill_both o) w (fill_both-Sized o v)
                (fill-zeros o.client v.client) (ground (arith, agreed)) (ground (arith, agreed)))
      ]

  export_connected-Agrees :
      (o : Outputs) (connected : Option W)
      → Sized o
      → Agrees client server (export_connected client server (fill_both o) connected)
  unfolding export_connected
  export_connected-Agrees o none v = cleared-Agrees internal o (λ e. cc e) v
  export_connected-Agrees o (some w) v =
      export_shaken-Agrees o (shake_hands 128 client server false false w) v

-- Whatever the library does, whatever the caller's two arrays of 64 bytes hold and whatever an
-- export that fails writes to them, a pair ends with ok or with an error and zeros in both arrays.
-- With ok both certificates were verified, both ends chose the protocol ghostmedia/1, and both
-- arrays hold the key that the client exported.
pub exporter_pair_with_pins-Agrees :
    {W : Type 0} (library : PairLibrary W)
    (client_expected_server server_expected_client context : Bytes) (o : Outputs)
    → Sized o
    → Agrees
        (library.client (contents context))
        (library.server (contents context))
        (exporter_pair_with_pins library client_expected_server server_expected_client context o)
unfolding exporter_pair_with_pins export_filled
exporter_pair_with_pins-Agrees library c s context o v =
    let client = library.client (contents context) in
    let server = library.server (contents context) in
    elim (Bool-cases (not (is_given context 32) || not (is_given c 32) || not (is_given s 32))) [
      | inl refused ↦
          rw (refused, exporter_pair_with_pins, export_filled)
            (cleared-Agrees client server bad_argument o (λ e. cc e) v)
      | inr given ↦
          rw (given, exporter_pair_with_pins, export_filled)
            (export_connected-Agrees client server o (library.connect (contents c) (contents s)) v)
    ]
