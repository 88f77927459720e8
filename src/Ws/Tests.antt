-- ===== src/Ws/Tests.antt =====
-- The WebSocket codec at concrete frames, keys and sessions.
use pahoa.Prelude.{
  ℕ, ◌+◌, ◌≤◌, true, false, none, some, List, [], ◌∷◌, ◌++◌, ◌≡◌, refl, length, take, drop, arith,
}
use pahoa.Prelude.Result.{Result, ok, err}
use pahoa.Ws.Bytes.{to_be_bytes}
use pahoa.Ws.Mask.{Key, little, big, unmask}
use pahoa.Ws.Mask.Laws.{IsKey, mask_octets, unmask-mask_octets}
use pahoa.Ws.Frame.{
  Frame, close, text, ping, is_control, reserved_bits, finish_decode, parse_header, parse_flags,
  parse_bits, client, decode, decode_as, unmask_by,
}
use pahoa.Ws.Frame.Decode.{decode_as_sound}
use pahoa.Ws.Frame.Stream.{decode_as-append, decode_as-append_err}
use pahoa.Ws.Close.{close_frame, cut_reason, cut_back, is_char_boundary, decode_as-close_frame}
use pahoa.Ws.Build.{build, build_masked, put_header}
use pahoa.Ws.Build.RoundTrip.{decode-build_masked, decode_as-build}
use pahoa.Ws.Session.{DeflateError, Session, handle}
use pahoa.Ws.Session.Invariant.{IsWellFormed, IsBoundedReply, handle-IsWellFormed}
use pahoa.Ws.Session.Reassembly.{fragment, interleaved, frames, payload, feed, feed_reassembles}

abbrev some_key : Key
some_key = record { k0 = 0xAA; k1 = 0xBB; k2 = 0xCC; k3 = 0xDD }

some_key-IsKey : IsKey some_key
some_key-IsKey = record {
  byte0 = omega arith;
  byte1 = omega arith;
  byte2 = omega arith;
  byte3 = omega arith;
}

-- "Hello"
abbrev hello : List ℕ
hello = 72 ∷ 101 ∷ 108 ∷ 108 ∷ 111 ∷ []

abbrev hello_frame : Frame
hello_frame = record { fin = true; rsv1 = false; opcode = text; payload = hello }

unmask-mask_octets_example : unmask little hello some_key ≡ mask_octets some_key 0 hello
unmask-mask_octets_example = unmask-mask_octets little hello some_key (ground arith) some_key-IsKey

decode-build_masked_example :
    decode little (build_masked big text false hello some_key ++ (129 ∷ [])) 5
    ≡ (ok (some hello_frame), 129 ∷ [])
decode-build_masked_example =
    decode-build_masked little big text false hello (129 ∷ []) some_key 5 (ground arith)
      some_key-IsKey (omega arith) (omega arith) (λ c. ground arith)

decode_as-build_example :
    decode_as little (build text false hello ++ (129 ∷ [])) 5 client
    ≡ (ok (some hello_frame), 129 ∷ [])
decode_as-build_example =
    decode_as-build little text false hello (129 ∷ []) 5 (omega arith) (omega arith)
      (λ c. ground arith)

abbrev next_byte : List ℕ
next_byte = 129 ∷ []

abbrev hello_bytes : List ℕ
hello_bytes = build text false hello ++ (129 ∷ [])

hello_decoded : decode_as little hello_bytes 5 client ≡ (ok (some hello_frame), 129 ∷ [])
hello_decoded =
    decode_as-build little text false hello (129 ∷ []) 5 (omega arith) (omega arith)
      (λ c. ground arith)

decode_as_sound_example :
    (length hello ≤ 5)
    × (is_control text ≡ true → (true ≡ true) × (length hello ≤ 125))
    × (length hello ≡ 5)
    × (hello ≡ take 5 (drop 2 hello_bytes))
    × (129 ∷ [] ≡ drop 7 hello_bytes)
    × (length hello_bytes ≡ 7 + length next_byte)
unfolding build unmask_by put_header
decode_as_sound_example =
    decode_as_sound little hello_bytes 5 client hello_frame (129 ∷ []) hello_decoded

decode_as-append_example :
    decode_as little (hello_bytes ++ (5 ∷ [])) 5 client ≡ (ok (some hello_frame), 129 ∷ 5 ∷ [])
decode_as-append_example =
    decode_as-append little hello_bytes (5 ∷ []) 5 client hello_frame (129 ∷ []) hello_decoded

-- The reserved bits RSV2 and RSV3.
abbrev reserved_bytes : List ℕ
reserved_bytes = 0xB1 ∷ 0 ∷ []

reserved_refused : decode_as little reserved_bytes 5 client ≡ (err reserved_bits, reserved_bytes)
unfolding decode_as finish_decode parse_header parse_flags parse_bits
reserved_refused = refl

decode_as-append_err_example :
    decode_as little (reserved_bytes ++ hello) 5 client
    ≡ (err reserved_bits, reserved_bytes ++ hello)
decode_as-append_err_example =
    decode_as-append_err little reserved_bytes hello 5 client reserved_bits reserved_bytes
      reserved_refused

-- An inflater that counts the messages, each stored as it is.
abbrev stored : ℕ → List ℕ → Result DeflateError (List ℕ) × ℕ
stored n payload = (ok payload, n + 1)

abbrev fresh_session : Session ℕ
fresh_session = record { inflater = some 0; partial = none; max_message = 16 }

handle-IsWellFormed_example :
    IsWellFormed (handle stored fresh_session hello_frame).1
    × ((handle stored fresh_session hello_frame).1.max_message ≡ 16)
    × IsBoundedReply 16 hello_frame (handle stored fresh_session hello_frame).0
handle-IsWellFormed_example = handle-IsWellFormed stored fresh_session hello_frame tt

-- "Hello" in three fragments, compressed, with a ping between them.
feed_reassembles_example :
    feed stored fresh_session (ok none) (
      record { fin = false; rsv1 = true; opcode = text; payload = 72 ∷ 101 ∷ [] }
      ∷ frames
          (fragment (108 ∷ 108 ∷ [])
            ∷ interleaved (record { fin = true; rsv1 = false; opcode = ping; payload = [] })
            ∷ [])
          (111 ∷ []))
    ≡ handle stored fresh_session
        (record { fin = true; rsv1 = true; opcode = text; payload = hello })
unfolding is_control payload
feed_reassembles_example =
    feed_reassembles stored fresh_session text true (72 ∷ 101 ∷ [])
      (fragment (108 ∷ 108 ∷ [])
        ∷ interleaved (record { fin = true; rsv1 = false; opcode = ping; payload = [] })
        ∷ [])
      (111 ∷ []) (ok none) refl refl (λ e. ground arith) refl (omega arith) (refl, tt)

-- "gó": its last character has two bytes.
abbrev reason : List ℕ
reason = 103 ∷ 0xC3 ∷ 0xB3 ∷ []

decode_as-close_frame_example :
    decode_as little (close_frame 1000 reason ++ next_byte) 125 client ≡ (
      ok (
          some (record {
            fin = true;
            rsv1 = false;
            opcode = close;
            payload = to_be_bytes 2 1000 ++ cut_reason reason;
          })),
      next_byte,
    )
decode_as-close_frame_example = decode_as-close_frame little 1000 reason next_byte

cut_two : cut_back reason 2 ≡ 1
unfolding cut_back is_char_boundary
cut_two = refl
