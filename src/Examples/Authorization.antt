-- ===== src/Examples/Authorization.antt =====
-- An archive node whose first answer on the code is an error (kernel/authorization_validity.go).
use iotex_analyser.Base.{
  zero, suc, ◌+◌, ◌^◌, ◌≡◌, ◌↔◌, refl, Bool, true, none, some, [], ◌∷◌, ok, err, arith,
}
use iotex_analyser.Authorization.{
  Archive, compute_authorization_validity, get_code_at_with_retry, get_nonce_at_with_retry,
  attempts, has_prefix,
}
use iotex_analyser.Authorization.Decides.{
  now, later, Accepts, compute_authorization_validity-Accepts,
}

abbrev archive : Archive
archive = record {
  connected = ok tt;
  code_at =
      λ block attempt. (elim attempt [ zero ↦ err "timeout" | suc n ↦ ok (239 ∷ 1 ∷ 0 ∷ 7 ∷ []) ]);
  nonce_at = λ block attempt. ok 5;
  cancelled = λ attempt. none;
}

-- An id with the network's id in its low 64 bits is taken for the network's.
other_chain_run : compute_authorization_validity archive 4689 30 (some (2 ^ 64 + 4689)) 5 ≡ ok true
unfolding compute_authorization_validity get_code_at_with_retry get_nonce_at_with_retry attempts
    has_prefix
other_chain_run = refl

compute_authorization_validity-Accepts_example :
    (valid : Bool) × (compute_authorization_validity archive 4689 30 (some (2 ^ 64 + 4689)) 5
      ≡ ok valid)
    × ((valid ≡ true) ↔ Accepts 4689 (some (2 ^ 64 + 4689)) (239 ∷ 1 ∷ 0 ∷ 7 ∷ []) 5 5)
compute_authorization_validity-Accepts_example =
    compute_authorization_validity-Accepts archive 4689 30 (some (2 ^ 64 + 4689)) 5
      (239 ∷ 1 ∷ 0 ∷ 7 ∷ []) 5 1 0 refl (later refl refl (now refl refl)) (omega arith)
      (now refl refl) (omega arith)
