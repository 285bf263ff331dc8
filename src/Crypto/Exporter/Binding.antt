-- ===== src/Crypto/Exporter/Binding.antt =====
-- The exporter context: its layout, and that it determines every field that it is made of.
use ghost_media.Base.{
  ℕ, ◌%◌, ◌^◌, ◌<◌, ◌≡◌, refl, sym, ap, ap₂, ◌∙◌, List, ◌∷◌, ◌++◌, length, take, drop, arith,
  take_all,
}
use ghost_media.Text.{codes}
use ghost_media.Wire.{read_u32_be, byte_at}
use ghost_media.Wire.Fields.{read_u32_be_written}
use ghost_media.Media.Header.Layout.{u32_be, tabulate, take-tabulate}
use ghost_media.Crypto.Exporter.{
  Cursor, append_bytes, append_u32_be, append_byte, ContextInput, context_preimage,
}

-- The 101 bytes, the arrays given by their bytes.
abbrev layout : (stream_id direction key_epoch : ℕ) → (session sender receiver : ℕ → ℕ) → List ℕ
layout stream_id direction key_epoch session sender receiver =
    codes "ghostmedia/1"
    ++ tabulate 16 session
    ++ u32_be stream_id
        (direction % 2 ^ 8 ∷ u32_be key_epoch (tabulate 32 sender ++ tabulate 32 receiver))

-- Arrays and integers have the sizes of their types, and the direction, of which only the low byte
-- is written, is below 256, as both directions of the interface are.
pub record IsContextInput (input : ContextInput) : Type 0 where
  pub stream_fits : input.stream_id < 2 ^ 32
  pub epoch_fits : input.key_epoch < 2 ^ 32
  pub direction_fits : input.direction < 256
  pub session_sized : length input.session_id ≡ 16
  pub sender_sized : length input.sender_spki_digest ≡ 32
  pub receiver_sized : length input.receiver_spki_digest ≡ 32

whole : (n : ℕ) (xs : List ℕ) → length xs ≡ n → xs ≡ tabulate n (byte_at xs)
whole n xs e = sym (take_all n xs e) ∙ take-tabulate n xs (omega (arith, e))

tabulated :
    (struct_size version stream direction epoch : ℕ) (session sender receiver : ℕ → ℕ)
    → context_preimage record {
      struct_size = struct_size;
      abi_version = version;
      stream_id = stream;
      direction = direction;
      key_epoch = epoch;
      session_id = tabulate 16 session;
      sender_spki_digest = tabulate 32 sender;
      receiver_spki_digest = tabulate 32 receiver;
    }
      ≡ record { destination = layout stream direction epoch session sender receiver; offset = 101 }
unfolding context_preimage append_bytes append_u32_be append_byte
tabulated struct_size version stream direction epoch session sender receiver = refl

abbrev layout_of : ContextInput → List ℕ
layout_of i =
    layout i.stream_id i.direction i.key_epoch (byte_at i.session_id) (byte_at i.sender_spki_digest)
      (byte_at i.receiver_spki_digest)

-- The preimage has the layout and fills its array.
pub context_preimage_lem :
    (input : ContextInput)
    → IsContextInput input
    → context_preimage input ≡ record { destination = layout_of input; offset = 101 }
context_preimage_lem i v =
    ap
      (λ (t : List ℕ). context_preimage record {
        struct_size = i.struct_size;
        abi_version = i.abi_version;
        stream_id = i.stream_id;
        direction = i.direction;
        key_epoch = i.key_epoch;
        session_id = t;
        sender_spki_digest = i.sender_spki_digest;
        receiver_spki_digest = i.receiver_spki_digest;
      })
      (whole 16 i.session_id v.session_sized)
    ∙ ap₂
        (λ (t u : List ℕ). context_preimage record {
          struct_size = i.struct_size;
          abi_version = i.abi_version;
          stream_id = i.stream_id;
          direction = i.direction;
          key_epoch = i.key_epoch;
          session_id = tabulate 16 (byte_at i.session_id);
          sender_spki_digest = t;
          receiver_spki_digest = u;
        })
        (whole 32 i.sender_spki_digest v.sender_sized)
        (whole 32 i.receiver_spki_digest v.receiver_sized)
    ∙ tabulated i.struct_size i.abi_version i.stream_id i.direction i.key_epoch
        (byte_at i.session_id) (byte_at i.sender_spki_digest) (byte_at i.receiver_spki_digest)

-- What a context binds.
pub record SameBinding (i j : ContextInput) : Type 0 where
  pub session : i.session_id ≡ j.session_id
  pub stream : i.stream_id ≡ j.stream_id
  pub direction : i.direction ≡ j.direction
  pub epoch : i.key_epoch ≡ j.key_epoch
  pub sender : i.sender_spki_digest ≡ j.sender_spki_digest
  pub receiver : i.receiver_spki_digest ≡ j.receiver_spki_digest

stream_read : (i : ContextInput) → IsContextInput i → read_u32_be (layout_of i) 28 ≡ i.stream_id
stream_read i v =
    read_u32_be_written (layout_of i) 28 i.stream_id v.stream_fits (refl, refl, refl, refl)

epoch_read : (i : ContextInput) → IsContextInput i → read_u32_be (layout_of i) 33 ≡ i.key_epoch
epoch_read i v =
    read_u32_be_written (layout_of i) 33 i.key_epoch v.epoch_fits (refl, refl, refl, refl)

same_array :
    (n : ℕ) (xs ys : List ℕ)
    → length xs ≡ n
    → length ys ≡ n
    → tabulate n (byte_at xs) ≡ tabulate n (byte_at ys)
    → xs ≡ ys
same_array n xs ys h k e = whole n xs h ∙ e ∙ sym (whole n ys k)

-- Two inputs that have the same preimage agree in session, stream, direction, epoch, sender and
-- receiver, if their arrays, stream and epoch have the sizes of their types and their directions,
-- of which only the low byte is written, are below 256.
pub context_preimage_injective :
    (i j : ContextInput)
    → IsContextInput i
    → IsContextInput j
    → context_preimage i ≡ context_preimage j
    → SameBinding i j
context_preimage_injective i j v w e =
    let same : layout_of i ≡ layout_of j =
      ap (λ (c : Cursor). c.destination)
        (sym (context_preimage_lem i v) ∙ e ∙ context_preimage_lem j w) in
    let direction : i.direction % 2 ^ 8 ≡ j.direction % 2 ^ 8 = ap (λ t. byte_at t 32) same in
    record {
      session =
          same_array 16 i.session_id j.session_id v.session_sized w.session_sized
            (ap (λ t. take 16 (drop 12 t)) same);
      stream = sym (stream_read i v) ∙ ap (λ t. read_u32_be t 28) same ∙ stream_read j w;
      direction = omega (arith, direction, v.direction_fits, w.direction_fits);
      epoch = sym (epoch_read i v) ∙ ap (λ t. read_u32_be t 33) same ∙ epoch_read j w;
      sender =
          same_array 32 i.sender_spki_digest j.sender_spki_digest v.sender_sized w.sender_sized
            (ap (λ t. take 32 (drop 37 t)) same);
      receiver =
          same_array 32 i.receiver_spki_digest j.receiver_spki_digest v.receiver_sized
            w.receiver_sized (ap (λ t. take 32 (drop 69 t)) same);
    }
