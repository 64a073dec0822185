-- ===== src/Agent/Writer/Examples.antt =====
-- Two writes over a channel that is full at first: the first bytes go out at once.
use evebox.Base.{ℕ, zero, suc, ◌*◌, ◌≡◌, refl, true, false, List, [], ◌∷◌, arith}
use evebox.Agent.Writer.{
  Attempt, sent, full, WriterEnv, ok, write_out, write_each, push_loop, push, flush, write,
  write_loop,
}
use evebox.Agent.Writer.Pushing.{Sleeps}
use evebox.Agent.Writer.Chunks.{IsHandedOn, write_out-IsHandedOn}

abbrev answer : ℕ → Attempt
answer zero = full
answer (suc n) = sent

abbrev env : WriterEnv
env = record {
  try_send = λ tick. answer tick;
  is_cancelled = λ tick. false;
  now = λ tick. tick * 20_000_000;
}

abbrev writes : List (List ℕ)
writes = (1 ∷ 2 ∷ []) ∷ (3 ∷ []) ∷ (4 ∷ []) ∷ []

sleeps : Sleeps env
sleeps = record { after_full = λ tick e. omega arith }

two_chunks :
    write_out env writes
    ≡ ok (record {
      buffer = [];
      first_sent = true;
      chunks = (1 ∷ 2 ∷ []) ∷ (3 ∷ 4 ∷ []) ∷ [];
      tick = 3;
    })
unfolding write_out write_each write write_loop flush push push_loop
two_chunks = refl

write_out-IsHandedOn_example : IsHandedOn writes (write_out env writes)
write_out-IsHandedOn_example = write_out-IsHandedOn env writes sleeps
