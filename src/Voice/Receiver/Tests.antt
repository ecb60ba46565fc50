-- ===== src/Voice/Receiver/Tests.antt =====
-- A packet over a concrete cipher.
use mathlib.Core.Path.{subst}
use ekizu.Prelude.{
  some_inj, ℕ, ◌+◌, ◌-◌, ◌≡◌, refl, Bool, false, Option, none, some, List, [], ◌∷◌, ◌++◌, length,
  take, replicate, length-append, take_append, inr, ap, arith,
}
use ekizu.Voice.Crypto.{Sodium, IsSodium, VoiceCrypto, aes256_gcm}
use ekizu.Voice.Sender.{Sender, AudioPacket, not_ready, send}
use ekizu.Voice.Receiver.{Dave}
use ekizu.Voice.Receiver.Transport.{plain, Arrives, send-process}

-- The tag is sixteen zeros.
abbrev open_text : Bool → List ℕ → List ℕ → List ℕ → List ℕ → Option (List ℕ)
open_text x key iv aad s = some (take (length s - 16) s)

abbrev plain_sodium : Sodium
plain_sodium = record {
  seal = λ x key iv aad text. some (text ++ replicate 16 0);
  open_sealed = open_text;
}

tagged-size : (text : List ℕ) → length (text ++ replicate 16 0) ≡ length text + 16
tagged-size text = length-append text (replicate 16 0)

opens_tagged :
    (text : List ℕ) → take (length (text ++ replicate 16 0) - 16) (text ++ replicate 16 0) ≡ text
opens_tagged text =
    take_append (length (text ++ replicate 16 0) - 16) text (replicate 16 0)
      (omega (arith, tagged-size text))

opened_seal :
    (text s : List ℕ)
    → some (text ++ replicate 16 0) ≡ some s
    → some (take (length s - 16) s) ≡ some text
opened_seal text s e =
    subst (λ (l : List ℕ). some (take (length l - 16) l) ≡ some text) (some_inj e)
      (ap some (opens_tagged text))

plain_sodium-IsSodium : IsSodium plain_sodium
plain_sodium-IsSodium = record {
  sealing = λ x key iv aad text. (text ++ replicate 16 0, refl, tagged-size text);
  opening = λ x key iv aad text s e. opened_seal text s e;
}

abbrev dave_off : Dave
dave_off = record { enabled = false; user_of = λ ssrc. some "7"; decrypt = λ user text. none }

abbrev speaker : Sender
speaker = record {
  crypto = record { mode = aes256_gcm; key = 1 ∷ 2 ∷ []; nonce = 4294967295 };
  ssrc = 77;
  rtp_sequence = 65535;
  rtp_timestamp = 960;
  next_send_time = 0;
  pending_frames = 1;
  packet_count = 0;
  consecutive_failures = 0;
}

abbrev listener : VoiceCrypto
listener = record { mode = aes256_gcm; key = 1 ∷ 2 ∷ []; nonce = 0 }

abbrev audio : AudioPacket
audio = record { encoded = 9 ∷ 8 ∷ 7 ∷ []; frame_count = 960 }

send-process_example :
    Arrives dave_off plain_sodium listener speaker
      (send plain_sodium not_ready audio speaker)
      (9 ∷ 8 ∷ 7 ∷ [])
      (some "7")
send-process_example =
    send-process dave_off plain_sodium listener speaker audio not_ready (9 ∷ 8 ∷ 7 ∷ []) (some "7")
      plain_sodium-IsSodium (inr refl) refl refl (omega arith) (plain refl)
