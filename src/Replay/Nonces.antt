-- ===== src/Replay/Nonces.antt =====
-- Nonces are claimed once.
use governed_autonomy_substr.Base.{String, arith, err, false, ok, true, value_error, ◌≡◌, ◌≢◌, ◌⧺◌}
use governed_autonomy_substr.Replay.Log.{ReplayLog, claim_nonce, nonce_used}

-- If a claim succeeds, then the nonce was not used before and is used after, every other nonce is as
-- before, the frames are unchanged, and a second claim raises.
pub claim_nonce_once :
    (nonce : String) (log log' : ReplayLog)
    → claim_nonce nonce log ≡ ok log'
    → (nonce_used nonce log ≡ false)
      × (nonce_used nonce log' ≡ true)
      × ((other : String) → other ≢ nonce → nonce_used other log' ≡ nonce_used other log)
      × (log'.frames ≡ log.frames)
      × (claim_nonce nonce log' ≡ err (value_error ("nonce already consumed: " ⧺ nonce)))
unfolding claim_nonce nonce_used
claim_nonce_once nonce log log' e =
    (ground arith, ground arith, (λ other h. ground arith), ground arith, ground arith)
