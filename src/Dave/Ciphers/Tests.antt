-- ===== src/Dave/Ciphers/Tests.antt =====
-- A manager whose ratchet gives every generation a key.
use ekizu.Prelude.{ℕ, ◌+◌, ◌%◌, ◌^◌, ◌≤◌, ◌≡◌, refl, List, [], ◌∷◌, some, none, false, arith}
use ekizu.Dave.Ciphers.{
  CipherManager, KeyRatchet, created, can_process_nonce, report_cipher_success,
}
use ekizu.Dave.Ciphers.{compute_wrapped_big_nonce, find_cipher, get_cipher}
use ekizu.Dave.Ciphers.{cleanup_expired_ciphers, max_generation_gap}
use ekizu.Dave.Ciphers.Replay.{Report, report, report_all, no_replay, report_others}
use ekizu.Dave.Ciphers.Generations.{IsClean, compute_wrapped_big_nonce_injective}
use ekizu.Dave.Ciphers.Generations.{cleanup_expired_ciphers-IsClean, get_cipher_lem}

abbrev keys : KeyRatchet (List ℕ)
keys = record { get_key = λ s g. (g ∷ 7 ∷ [], s); delete_key = λ s g. g ∷ s }

abbrev start : CipherManager (List ℕ)
start = created [] 0

abbrev first_report : Report
first_report = record { now = 5; generation = 0; nonce = 10 }

abbrev second_report : Report
second_report = record { now = 6; generation = 0; nonce = 13 }

abbrev fourth_report : Report
fourth_report = record { now = 7; generation = 0; nonce = 11 }

abbrev after_one : CipherManager (List ℕ)
after_one = record start { newest_processed_nonce = some 10 }

one_run : report start first_report ≡ after_one
unfolding report_cipher_success compute_wrapped_big_nonce
one_run = refl

skipped_are_missing : (report after_one second_report).missing_nonces ≡ 11 ∷ 12 ∷ []
unfolding report_cipher_success compute_wrapped_big_nonce
skipped_are_missing = refl

no_replay_example :
    can_process_nonce
      (report_all
        (report (report_all start (first_report ∷ [])) second_report)
        (fourth_report ∷ []))
      0
      13
    ≡ false
no_replay_example = no_replay [] 0 (first_report ∷ []) (fourth_report ∷ []) second_report

wrapped_13 : compute_wrapped_big_nonce 0 13 ≡ 13
unfolding compute_wrapped_big_nonce
wrapped_13 = refl

wrapped_12 : compute_wrapped_big_nonce 0 12 ≡ 12
unfolding compute_wrapped_big_nonce
wrapped_12 = refl

report_others_example :
    can_process_nonce (report after_one second_report) 0 12 ≡ can_process_nonce after_one 0 12
report_others_example =
    report_others after_one second_report 10 0 12 tt refl
      (λ e. omega (arith, e, wrapped_12, wrapped_13)) (omega (arith, wrapped_12, wrapped_13))

compute_wrapped_big_nonce_injective_example :
    (◌≡◌ {A = ℕ} 3 3) × (◌≡◌ {A = ℕ} (13 % 2 ^ 24) ((13 + 2 ^ 24) % 2 ^ 24))
compute_wrapped_big_nonce_injective_example =
    compute_wrapped_big_nonce_injective 3 3 13 (13 + 2 ^ 24) (omega arith) (omega arith) same
  where
    same : compute_wrapped_big_nonce 3 13 ≡ compute_wrapped_big_nonce 3 (13 + 2 ^ 24)
    same = unfold compute_wrapped_big_nonce in refl

-- Generation 0 has expired at 9, generation 1 has no cipher, and generations 2 and 3 have one.
abbrev with_ciphers : CipherManager (List ℕ)
with_ciphers = record start {
  ciphers =
      record { generation = 0; cipher = 1 ∷ []; expiry = some 5 }
      ∷ record { generation = 3; cipher = 4 ∷ []; expiry = none }
      ∷ record { generation = 2; cipher = 3 ∷ []; expiry = some 20 }
      ∷ [];
  newest_generation = 3;
}

clean_up_test :
    ((cleanup_expired_ciphers keys with_ciphers 9).oldest_generation ≡ 2)
    × ((cleanup_expired_ciphers keys with_ciphers 9).ratchet ≡ 1 ∷ 0 ∷ [])
unfolding cleanup_expired_ciphers
clean_up_test = (refl, refl)

cleanup_expired_ciphers-IsClean_example :
    IsClean keys with_ciphers (cleanup_expired_ciphers keys with_ciphers 9) 9
cleanup_expired_ciphers-IsClean_example =
    cleanup_expired_ciphers-IsClean keys with_ciphers 9 (omega arith)

gives_key : (get_cipher keys start 9 0).0 ≡ some (0 ∷ 7 ∷ [])
unfolding get_cipher
gives_key = refl

get_cipher_lem_example :
    let m' = (get_cipher keys start 9 0).1 in
    (m'.oldest_generation ≤ 0)
    × (0 ≤ (m'.newest_generation + max_generation_gap) % 2 ^ 32)
    × (find_cipher 0 m'.ciphers ≡ some (0 ∷ 7 ∷ []))
get_cipher_lem_example = get_cipher_lem keys start 9 0 (0 ∷ 7 ∷ []) gives_key
