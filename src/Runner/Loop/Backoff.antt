-- ===== src/Runner/Loop/Backoff.antt =====
-- How long the loops sleep after errors.
use sqlxmq.Prelude.{
  ℕ, zero, suc, ◌*◌, ◌≤◌, ◌<◌, ◌≡◌, refl, Bool, true, false, List, [], ◌∷◌, All, arith, ◌&&◌, ◌==◌,
  ==_iff,
}
use sqlxmq.Runner.{JobRunner}
use sqlxmq.Runner.Loop.{backoff, listen, listen_all}

listen-slept : (n : ℕ) (received : Bool) (r : JobRunner) → (listen n received r).slept ≤ 1000000
unfolding listen
listen-slept zero true r = omega arith
listen-slept zero false r = omega arith
listen-slept (suc n) received r = ground arith

-- Whatever the listener receives and whatever errors it meets, from any count of errors, no sleep of
-- its loop is longer than a second.
pub listen_all_bounded :
    (received : List Bool) (num_errors : ℕ) (r : JobRunner)
    → All (λ slept. slept ≤ 1000000) (listen_all num_errors received r)
unfolding listen_all
listen_all_bounded [] n r = tt
listen_all_bounded (b ∷ bs) n r =
    let s = listen n b r in (listen-slept n b r, listen_all_bounded bs s.num_errors s.runner)

-- Whether each of so many first failures doubles the wait.
doubling : ℕ → Bool
doubling zero = true
doubling (suc k) = doubling k && backoff (suc k) == 2 * backoff k

doubling_below : (k n : ℕ) → doubling k ≡ true → n < k → (backoff (suc n) == 2 * backoff n) ≡ true
unfolding doubling
doubling_below zero n e h = absurd (omega arith)
doubling_below (suc k) n e h = ground (arith, doubling_below k n)

doubling_table : doubling 58 ≡ true
unfolding doubling backoff
doubling_table = refl

-- The main loop's wait after failed polls doubles with each further failure in a row, with no
-- bound but that of the machine's numbers: 50 ms times 2 to the 58th is the last that they hold.
pub backoff_doubles : (n : ℕ) → n < 58 → backoff (suc n) ≡ 2 * backoff n
backoff_doubles n h = (==_iff _ _).0 (doubling_below 58 n doubling_table h)
