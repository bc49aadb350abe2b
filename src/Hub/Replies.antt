-- ===== src/Hub/Replies.antt =====
-- That a request which is the only one for its agent gets the agent's answer.
use librawatch.Common.{
  ◌≤◌, subst, ℕ, ◌==◌, ◌<◌, Text, text_eq, text_eq_refl, text_eq_iff, Bool, true, false, Option,
  none, some, List, [], ◌∷◌, ◌++◌, All, ◌≡◌, refl, arith,
}
use librawatch.Hub.Waiters.{
  Waiters, WaiterEvent, requests, replies, receives, times_out, store, set_at, begin_request,
  deliver_output, handle_kill_result, finish_request, receive_output, give_up, waiter_step,
  waiter_run, no_waiters,
}

abbrev points : ℕ → Option ℕ → Bool
points ch none = false
points ch (some c) = c == ch

abbrev is_for : Text → Option Text → Bool
is_for a none = false
is_for a (some b) = text_eq b a

-- The events that concern other agents; the request itself may look at its channel.
abbrev pub IsOther : Text → ℕ → WaiterEvent → Type 0
IsOther a ch (requests agent sent) = text_eq agent a ≡ false
IsOther a ch (replies agent output) = text_eq agent a ≡ false
IsOther a ch (receives c) = (c == ch) ≡ false
IsOther a ch (times_out c) = (c == ch) ≡ false

module _ (a : Text) (ch : ℕ) where
  -- The request of `a` waits on `ch`, alone, with `content` in the buffer.
  record Alone (content : Option Text) (s : Waiters) : Type 0 where
    is_stored : s.waiters a ≡ some ch
    is_waiting : s.waiting ch ≡ some a
    has_content : s.channel ch ≡ content
    is_old : ch < s.next
    no_other_points : (b : Text) → text_eq b a ≡ false → points ch (s.waiters b) ≡ false
    no_other_waits : (c : ℕ) → (c == ch) ≡ false → is_for a (s.waiting c) ≡ false

  begin-Alone :
      (content : Option Text) (b : Text) (sent : Bool) (s : Waiters)
      → text_eq b a ≡ false
      → Alone content s
      → Alone content (begin_request b sent s)
  unfolding begin_request store set_at
  begin-Alone content b true s h i = record {
    is_stored = ground (arith, i.is_stored, text_eq_iff a b, text_eq_iff b a);
    is_waiting = ground (arith, i.is_waiting, i.is_old);
    has_content = ground (arith, i.has_content, i.is_old);
    is_old = ground (arith, i.is_old);
    no_other_points = λ x n. ground (arith, i.is_old, i.no_other_points x n);
    no_other_waits = λ c n. ground (arith, i.is_old, i.no_other_waits c n);
  }
  begin-Alone content b false s h i = record {
    is_stored = ground (arith, i.is_stored, text_eq_iff a b, text_eq_iff b a);
    is_waiting = i.is_waiting;
    has_content = i.has_content;
    is_old = ground (arith, i.is_old);
    no_other_points = λ x n. ground (arith, i.no_other_points x n);
    no_other_waits = i.no_other_waits;
  }

  deliver-Alone :
      (content : Option Text) (o : Option ℕ) (output : Text) (s : Waiters)
      → points ch o ≡ false
      → Alone content s
      → Alone content (deliver_output o output s)
  unfolding deliver_output set_at
  deliver-Alone content none output s h i = i
  deliver-Alone content (some c) output s h i = record {
    is_stored = i.is_stored;
    is_waiting = i.is_waiting;
    has_content = ground (arith, i.has_content);
    is_old = i.is_old;
    no_other_points = i.no_other_points;
    no_other_waits = i.no_other_waits;
  }

  finish-Alone :
      (content : Option Text) (c : ℕ) (b : Text) (result : Option Text) (s : Waiters)
      → (c == ch) ≡ false
      → text_eq b a ≡ false
      → Alone content s
      → Alone content (finish_request c b result s)
  unfolding finish_request store set_at
  finish-Alone content c b result s n h i = record {
    is_stored = ground (arith, i.is_stored, text_eq_iff a b, text_eq_iff b a);
    is_waiting = ground (arith, i.is_waiting);
    has_content = i.has_content;
    is_old = i.is_old;
    no_other_points = λ x m. ground (arith, i.no_other_points x m);
    no_other_waits = λ d m. ground (arith, i.no_other_waits d m);
  }

  step-Alone :
      (content : Option Text) (e : WaiterEvent) (s : Waiters)
      → IsOther a ch e
      → Alone content s
      → Alone content (waiter_step e s)
  unfolding waiter_step handle_kill_result
  step-Alone content (requests b sent) s h i = begin-Alone content b sent s h i
  step-Alone content (replies b output) s h i =
      deliver-Alone content (s.waiters b) output s (i.no_other_points b h) i
  step-Alone content (receives c) s h i =
      received (s.waiting c) (s.channel c) (i.no_other_waits c h)
    where
      received :
          (o : Option Text) (buffer : Option Text)
          → is_for a o ≡ false
          → Alone content (receive_output c o buffer s)
      received none buffer n = unfold receive_output in i
      received (some b) none n = unfold receive_output in i
      received (some b) (some output) n =
          unfold receive_output in finish-Alone content c b (some output) s h n i
  step-Alone content (times_out c) s h i = given_up (s.waiting c) (i.no_other_waits c h)
    where
      given_up : (o : Option Text) → is_for a o ≡ false → Alone content (give_up c o s)
      given_up none n = unfold give_up in i
      given_up (some b) n = unfold give_up in finish-Alone content c b none s h n i

  run-Alone :
      (content : Option Text) (es : List WaiterEvent) (s : Waiters)
      → All (IsOther a ch) es
      → Alone content s
      → Alone content (waiter_run es s)
  unfolding waiter_run
  run-Alone content [] s h i = i
  run-Alone content (e ∷ es) s (k, h) i =
      run-Alone content es (waiter_step e s) h (step-Alone content e s k i)

  reply-Alone :
      (output : Text) (s : Waiters)
      → Alone none s
      → Alone (some output) (waiter_step (replies a output) s)
  unfolding waiter_step handle_kill_result deliver_output set_at
  reply-Alone output s i = rw i.is_stored (record {
    is_stored = i.is_stored;
    is_waiting = i.is_waiting;
    has_content = ground (arith, i.has_content);
    is_old = i.is_old;
    no_other_points = i.no_other_points;
    no_other_waits = i.no_other_waits;
  })

  receive-answer :
      (output : Text) (s : Waiters)
      → Alone (some output) s
      → (waiter_step (receives ch) s).answers ≡ s.answers ++ (ch, some output) ∷ []
  unfolding waiter_step receive_output finish_request
  receive-answer output s i = rw (i.is_waiting, i.has_content) refl

-- No waiter points to a channel that is not made yet.
abbrev HasOld : Waiters → Type 0
HasOld s = (b : Text) (c : ℕ) → s.next ≤ c → points c (s.waiters b) ≡ false

finish-HasOld :
    (d : ℕ) (a : Text) (result : Option Text) (s : Waiters)
    → HasOld s
    → HasOld (finish_request d a result s)
unfolding finish_request store
finish-HasOld d a result s h b c p = ground (arith, h b c p)

step-HasOld : (e : WaiterEvent) (s : Waiters) → HasOld s → HasOld (waiter_step e s)
unfolding waiter_step handle_kill_result
step-HasOld (requests a true) s h = λ b c p. unfold begin_request store in ground (arith, h b c)
step-HasOld (requests a false) s h = λ b c p. unfold begin_request store in ground (arith, h b c)
step-HasOld (replies a output) s h = delivered (s.waiters a)
  where
    delivered : (o : Option ℕ) → HasOld (deliver_output o output s)
    delivered none = unfold deliver_output in h
    delivered (some d) = unfold deliver_output in h
step-HasOld (receives d) s h = received (s.waiting d) (s.channel d)
  where
    received : (o buffer : Option Text) → HasOld (receive_output d o buffer s)
    received none buffer = unfold receive_output in h
    received (some a) none = unfold receive_output in h
    received (some a) (some output) = unfold receive_output in finish-HasOld d a (some output) s h
step-HasOld (times_out d) s h = given_up (s.waiting d)
  where
    given_up : (o : Option Text) → HasOld (give_up d o s)
    given_up none = unfold give_up in h
    given_up (some a) = unfold give_up in finish-HasOld d a none s h

run-HasOld : (es : List WaiterEvent) (s : Waiters) → HasOld s → HasOld (waiter_run es s)
unfolding waiter_run
run-HasOld [] s h = h
run-HasOld (e ∷ es) s h = run-HasOld es (waiter_step e s) (step-HasOld e s h)

-- No request for the agent waits.
abbrev pub IsIdle : Text → Waiters → Type 0
IsIdle a s = (c : ℕ) → is_for a (s.waiting c) ≡ false

request-Alone :
    (a : Text) (s : Waiters)
    → HasOld s
    → IsIdle a s
    → Alone a s.next none (waiter_step (requests a true) s)
unfolding waiter_step begin_request store set_at
request-Alone a s old idle = record {
  is_stored = ground (arith, text_eq_refl a);
  is_waiting = ground arith;
  has_content = ground arith;
  is_old = omega arith;
  no_other_points = λ b n. ground (arith, old b s.next);
  no_other_waits = λ c n. ground (arith, idle c);
}

-- After any events, a request that is sent to an agent for which no other request waits, and that
-- does not time out before it looks, returns the output that the agent sends, whatever happens
-- before and after that with the requests for other agents, as long as none is made for this one
-- and it sends no other output.
pub kill_request-answered :
    (a output : Text) (before others later : List WaiterEvent) (s : Waiters)
    → waiter_run before no_waiters ≡ s
    → IsIdle a s
    → All (IsOther a s.next) others
    → All (IsOther a s.next) later
    → (waiter_step (receives s.next) (
        waiter_run later (
          waiter_step
            (replies a output)
            (waiter_run others (waiter_step (requests a true) s))))).answers
      ≡ (waiter_run later (
          waiter_step
            (replies a output)
            (waiter_run others (waiter_step (requests a true) s)))).answers
        ++ (s.next, some output) ∷ []
kill_request-answered a output before others later s e idle o l =
    let old = subst HasOld e (run-HasOld before no_waiters (λ b c p. refl)) in
    let started = request-Alone a s old idle in
    let waited = run-Alone a s.next none others (waiter_step (requests a true) s) o started in
    let replied = reply-Alone a s.next output _ waited in
    receive-answer a s.next output _ (run-Alone a s.next (some output) later _ l replied)
