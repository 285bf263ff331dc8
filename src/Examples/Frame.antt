-- ===== src/Examples/Frame.antt =====
-- An instance of the theorem on control frames.
use ghost_media.Base.{
  ℕ, ◌+◌, ◌≡◌, refl, some, List, [], ◌∷◌, ◌++◌, length, take, drop, replicate, arith,
}
use ghost_media.Abi.{ok, need_more_data, memory}
use ghost_media.Text.{codes}
use ghost_media.Json.Utf8.{after_character}
use ghost_media.Json.Parser.{parse_json}
use ghost_media.Message.Access.{find_member}
use ghost_media.Message.Parse.{validate_json_text}
use ghost_media.Frame.{FrameInfo, encode_frame, peek_frame}
use ghost_media.Frame.Stream.{frame, peek-encode}

abbrev empty_object : List ℕ
empty_object = codes "{}"

abbrev buffer : List ℕ
buffer = replicate 8 255

abbrev old_info : FrameInfo
old_info = record {
  struct_size = 32;
  abi_version = 0;
  payload_length = 9;
  frame_size = 9;
  complete = 9;
}

empty_object-valid : validate_json_text (memory empty_object) ≡ ok
unfolding validate_json_text parse_json after_character find_member
empty_object-valid = refl

peek-encode_example :
    (encode_frame (memory empty_object) (memory buffer) (some 0) ≡ record {
      status = ok;
      output = memory (frame empty_object ++ drop (4 + length empty_object) buffer);
      written = some (4 + length empty_object);
    })
    × (peek_frame (memory (frame empty_object ++ 7 ∷ [])) (some old_info) ≡ record {
      status = ok;
      info = some (record {
        struct_size = 32;
        abi_version = 1;
        payload_length = length empty_object;
        frame_size = 4 + length empty_object;
        complete = 1;
      });
    })
    × ((peek_frame (memory (take 5 (frame empty_object))) (some old_info)).status ≡ need_more_data)
peek-encode_example =
    peek-encode empty_object buffer (7 ∷ []) 0 5 old_info empty_object-valid (omega arith)
      (omega arith) (omega arith)
