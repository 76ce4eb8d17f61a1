-- ===== src/Xudp/Host/Hasty.antt =====
-- How long `gekkota_xudp_poll` waits (src/gekkota/gekkota_xudp.c).
use gekkota.Base.{ℕ, ◌+◌, ◌<◌, ◌≡◌, refl, arith, List, ◌∷◌, some, false, NetOrder}
use gekkota.Base.{Run, done, fault, stuck, ◌>>=◌}
use gekkota.Xudp.Clock.{time_compare, is_less}
use gekkota.Xudp.Host.Accept.{discarded, processed, failed}
use gekkota.Xudp.Host.Poll.{
  Polling, Moment, Circumstances, Step, then_next, dispatched, poll_round, poll_loop, poll,
}

not_less : (a b : ℕ) → a < b + 86400000 → is_less (time_compare a b) ≡ false
unfolding time_compare
not_less a b h = ground arith

stopped : (r : Run Step) → (r >>= λ a. then_next a (λ t. done (t, a.1, discarded))) ≡ r
stopped (done (s, e, discarded)) = refl
stopped (done (s, e, processed)) = refl
stopped (done (s, e, failed)) = refl
stopped fault = refl
stopped stuck = refl

then_next_ext :
    (r : Step) (f g : Polling → Run Step)
    → ((s : Polling) → f s ≡ g s)
    → then_next r f ≡ then_next r g
then_next_ext (s, e, discarded) f g h = h s
then_next_ext (s, e, processed) f g h = refl
then_next_ext (s, e, failed) f g h = refl

poll_loop-once :
    (o : NetOrder) (k : Circumstances) (deadline : ℕ) (m : Moment) (ms : List Moment) (s : Polling)
    → m.after < deadline + 86400000
    → poll_loop o k (some deadline) (m ∷ ms) s ≡ poll_round o k m s
unfolding poll_loop
poll_loop-once o k deadline m ms s soon =
    rw (not_less m.after deadline soon) (stopped (poll_round o k m s))

-- With a timeout that is not negative, when the time after the first round is less than a day past
-- the deadline, a poll never waits: it dispatches, and when that returns 0, its result is that of a
-- single round, whatever the socket would get and whenever the rounds after it would be.
pub poll-hasty :
    (o : NetOrder) (k : Circumstances) (timeout : ℕ) (m : Moment) (ms : List Moment) (s : Polling)
    → m.after < timeout + m.now + 86400000
    → poll o k (some timeout) (m ∷ ms) s ≡ then_next (dispatched o k s) (poll_round o k m)
unfolding poll
poll-hasty o k timeout m ms s soon =
    then_next_ext (dispatched o k s) _ (poll_round o k m)
      (λ t. poll_loop-once o k (timeout + m.now) m ms t soon)
