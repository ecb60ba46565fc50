-- ===== src/Dave/Decryptor/Later.antt =====
-- What a manager of src/dave/decryptor.cpp makes of a frame again, after other calls.
use mathlib.Core.Path.{subst}
use ekizu.Prelude.{
  if_true, if_false, ℕ, ◌+◌, ◌/◌, ◌^◌, ◌≤◌, ◌<◌, ◌≡◌, sym, ap, ◌∙◌, arith, List, [], ◌∷◌, ◌++◌,
  replicate, Option, some, none, Bool-cases, inl, inr, some_inj,
}
use ekizu.Dave.Buffer.{◌>>=◌, >>=-eq-some, u32_bytes}
use ekizu.Dave.Inbound.{InboundFrameProcessor}
use ekizu.Dave.Ciphers.{
  KeyRatchet, CipherManager, compute_wrapped_generation, can_process_nonce, get_cipher,
  update_expiry,
}
use ekizu.Dave.Ciphers.Replay.{IsTracked}
use ekizu.Dave.Aead.{Gcm, decrypt as open_combined}
use ekizu.Dave.Decryptor.{Tried, decrypt_impl, decrypt_with, deliver_opened}
use ekizu.Dave.Decryptor.Replay.{
  IsGuarded, get_cipher-IsGuarded, report-IsGuarded, success-IsGuarded, same_generation,
  deliver_reports, refuses,
}

-- A call of a manager: a frame to decrypt, with the time and the room for the output, or an expiry.
pub data Call : Type 0 where
  incoming : InboundFrameProcessor → ℕ → ℕ → Call
  expires : ℕ → Call

module _ {S : Type 0} (keys : KeyRatchet S) (gcm : Gcm) where
  call : CipherManager S → Call → Option (CipherManager S)
  unfolding decrypt_impl update_expiry
  call m (incoming p now capacity) = decrypt_impl keys gcm m p now capacity >>= λ t. some t.manager
  call m (expires expiry) = some (update_expiry m expiry)

  -- The manager after calls; none is a call that reads or writes outside a buffer.
  unfoldable pub call_all : CipherManager S → List Call → Option (CipherManager S)
  unfolding call
  call_all m [] = some m
  call_all m (c ∷ cs) = call m c >>= λ m'. call_all m' cs

  module _ (g nonce low : ℕ) where
    opened-IsGuarded :
        (m : CipherManager S) (p : InboundFrameProcessor) (now generation capacity : ℕ)
        (text : Option (List ℕ)) (t : Tried S)
        → IsGuarded keys g nonce low m
        → deliver_opened keys gcm m p now generation capacity text ≡ some t
        → IsGuarded keys g nonce low t.manager
    unfolding deliver_opened
    opened-IsGuarded m p now generation capacity none t h e =
        subst (λ (x : Tried S). IsGuarded keys g nonce low x.manager) (some_inj e) h
    opened-IsGuarded m p now generation capacity (some text) t h e =
        subst (IsGuarded keys g nonce low)
          (sym (deliver_reports keys gcm p now generation capacity m t text e))
          (report-IsGuarded keys g nonce low now generation p.truncated_nonce m h)

    tried-IsGuarded :
        (m : CipherManager S) (p : InboundFrameProcessor) (now generation capacity : ℕ)
        (cipher : Option (List ℕ)) (t : Tried S)
        → IsGuarded keys g nonce low m
        → decrypt_with keys gcm m p now generation capacity cipher ≡ some t
        → IsGuarded keys g nonce low t.manager
    unfolding decrypt_with
    tried-IsGuarded m p now generation capacity none t h e =
        subst (λ (x : Tried S). IsGuarded keys g nonce low x.manager) (some_inj e) h
    tried-IsGuarded m p now generation capacity (some key) t h e =
        opened-IsGuarded m p now generation capacity
          (open_combined gcm key (p.ciphertext ++ p.tag) p.authenticated
            (replicate 8 0 ++ u32_bytes p.truncated_nonce))
          t h e

    decrypt-IsGuarded :
        (m : CipherManager S) (p : InboundFrameProcessor) (now capacity : ℕ) (t : Tried S)
        → IsGuarded keys g nonce low m
        → decrypt_impl keys gcm m p now capacity ≡ some t
        → IsGuarded keys g nonce low t.manager
    unfolding decrypt_impl
    decrypt-IsGuarded m p now capacity t h e =
        let generation =
          compute_wrapped_generation m.oldest_generation (p.truncated_nonce / 2 ^ 24) in
        let untried : ◌≡◌ {A = Option (Tried S)}
              (some (record { bytes = none; manager = m; processor = p; attempts = 0 })) (some t)
            → IsGuarded keys g nonce low t.manager =
          λ same. subst (λ (x : Tried S). IsGuarded keys g nonce low x.manager) (some_inj same) h in
        let asked = get_cipher keys m now generation in
        elim (Bool-cases p.encrypted) [
          | inr clear_frame ↦ untried (sym (if_false _ _ clear_frame) ∙ e)
          | inl enc ↦ elim (Bool-cases (can_process_nonce m generation p.truncated_nonce)) [
            | inr old ↦ untried (sym (if_true _ _ enc ∙ if_false _ _ old) ∙ e)
            | inl fresh ↦
                tried-IsGuarded asked.1 p now generation capacity asked.0 t
                  (get_cipher-IsGuarded keys g nonce low now generation m h)
                  (sym (if_true _ _ enc ∙ if_true _ _ fresh) ∙ e)
          ]
        ]

    call-IsGuarded :
        (c : Call) (m m' : CipherManager S)
        → IsGuarded keys g nonce low m
        → call m c ≡ some m'
        → IsGuarded keys g nonce low m'
    unfolding call can_process_nonce update_expiry
    call-IsGuarded (incoming p now capacity) m m' h e =
        let (t, tried, same) = >>=-eq-some (decrypt_impl keys gcm m p now capacity) _ e in
        subst (IsGuarded keys g nonce low) (some_inj same)
          (decrypt-IsGuarded m p now capacity t h tried)
    call-IsGuarded (expires expiry) m m' h e =
        subst (IsGuarded keys g nonce low) (some_inj e)
          (record { tracked = h.tracked; refused = h.refused; raised = h.raised })

    call_all-IsGuarded :
        (cs : List Call) (m m' : CipherManager S)
        → IsGuarded keys g nonce low m
        → call_all m cs ≡ some m'
        → IsGuarded keys g nonce low m'
    unfolding call_all
    call_all-IsGuarded [] m m' h e = subst (IsGuarded keys g nonce low) (some_inj e) h
    call_all-IsGuarded (c ∷ cs) m m' h e =
        let (n, first, rest) = >>=-eq-some (call m c) _ e in
        call_all-IsGuarded cs n m' (call-IsGuarded c m n h first) rest

  -- Once a manager has decrypted a frame, it decrypts no frame with the same truncated nonce, whatever
  -- else that frame holds and whatever frames and expiries come between and return, as long as its
  -- oldest generation has not passed the generation of the first frame: it answers without bytes. The
  -- list of missing nonces was built by reports, and the oldest generation at first is at least 512
  -- below the end of uint32.
  pub decrypt_impl-once :
      (m last : CipherManager S) (p p' : InboundFrameProcessor) (now now' capacity capacity' : ℕ)
      (t : Tried S) (out : List ℕ) (between : List Call)
      → IsTracked m
      → m.oldest_generation + 512 ≤ 2 ^ 32
      → p.truncated_nonce < 2 ^ 32
      → p'.truncated_nonce ≡ p.truncated_nonce
      → decrypt_impl keys gcm m p now capacity ≡ some t
      → t.bytes ≡ some out
      → call_all t.manager between ≡ some last
      → last.oldest_generation
        ≤ compute_wrapped_generation m.oldest_generation (p.truncated_nonce / 2 ^ 24)
      → (t' : Tried S) × (decrypt_impl keys gcm last p' now' capacity' ≡ some t')
        × (t'.bytes ≡ none)
  decrypt_impl-once m last p p' now now' capacity capacity' t out between tracked room small same e
        b later below =
      let low = p.truncated_nonce / 2 ^ 24 in
      let g = compute_wrapped_generation m.oldest_generation low in
      let start = success-IsGuarded keys gcm m p now capacity t out tracked e b in
      let guarded =
        call_all-IsGuarded g p.truncated_nonce m.oldest_generation between t.manager last start
          later in
      let again : compute_wrapped_generation last.oldest_generation (p'.truncated_nonce / 2 ^ 24)
          ≡ g =
        ap (λ (k : ℕ). compute_wrapped_generation last.oldest_generation (k / 2 ^ 24)) same
        ∙ same_generation keys m.oldest_generation last.oldest_generation low (omega arith)
            guarded.raised below room in
      refuses keys gcm last p' now' capacity' (rw (again, same) guarded.refused)
