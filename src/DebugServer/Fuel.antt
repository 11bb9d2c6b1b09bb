-- ===== src/DebugServer/Fuel.antt =====
-- The rounds that the loops of debug_server.cpp over the lines of the client are given.
use kagu_os.Prelude.{
  ℕ, zero, suc, ◌+◌, ◌<◌, ◌≡◌, refl, ap, ◌∙◌, ◌⊎◌, inl, inr, Bool, true, false, ◌&&◌, Option, none,
  some, List, [], ◌∷◌, ◌++◌, arith, if◌then◌else◌, if_intro, length, ℤ, ◌-ℤ◌, leb_ℤ, eqb_ℤ, pos,
}
use kagu_os.Std.Text.{codes, split_at, beq, Bytes, is_empty}
use kagu_os.Std.Fault.{Fault, Result, ok, fail}
use kagu_os.Std.Number.{stoi}
use kagu_os.DebugServer.Replies.{send_lines_lem}
use kagu_os.DebugServer.Pause.{serve, decide, enough}
use kagu_os.Ram.{direct_write, Ram}
use kagu_os.DebugServer.Commands.{
  behind_word, extract_int, second_int, state_lines, range, Session, Verdict, handle_argument,
  show_state, with_breakpoints, written, set_cell, before_blank, handle_command, unread,
}
use kagu_os.DebugServer.{insert, erase, DebugServer, read_line_from, read_line}

-- A line that is not empty is taken off the text.
read_line_from-shorter :
    (line s : Bytes)
    → is_empty (read_line_from line s).0 ≡ false
    → length (read_line_from line s).1 < length s
unfolding read_line_from
read_line_from-shorter line [] h = cc
read_line_from-shorter line (c ∷ s) h =
    ground (arith, read_line_from-shorter (line ++ c ∷ []) s, read_line_from-shorter line s)

-- A command reads nothing of what the client has sent behind it.
abbrev Keeps : Bytes → Result (Verdict × Session) → Type 0
Keeps t (ok (v, s)) = s.server.received ≡ t
Keeps t (fail e) = Unit

with_breakpoints-Keeps :
    (f : ℤ → List ℤ → List ℤ) (s : Session) (r : Result ℤ)
    → (with_breakpoints f s r).server.received ≡ s.server.received
with_breakpoints-Keeps f s (ok a) = refl
with_breakpoints-Keeps f s (fail e) = refl

written-Keeps : (s : Session) (r : Result Ram) → (written s r).server.received ≡ s.server.received
written-Keeps s (ok ram) = refl
written-Keeps s (fail e) = refl

set_cell-Keeps :
    (v : Bytes) (s : Session) (r : Result ℤ) → (set_cell v s r).server.received ≡ s.server.received
set_cell-Keeps v s (ok a) = written-Keeps s (direct_write a v s.ram)
set_cell-Keeps v s (fail e) = refl

before_blank-Keeps :
    (s : Session) (o : Option (Bytes × Bytes))
    → (before_blank o s).server.received ≡ s.server.received
before_blank-Keeps s none = refl
before_blank-Keeps s (some (a, v)) = set_cell-Keeps v s (stoi a)

show_state-Keeps : (a b : ℤ) (s : Session) → Keeps s.server.received (show_state a b s)
unfolding show_state
show_state-Keeps a b s =
    if_intro (Keeps s.server.received) (eqb_ℤ b (pos 2147483647) && leb_ℤ a b) _ _ (λ _. tt)
      (λ _.
        ap (λ (d : DebugServer). d.received)
          (send_lines_lem (state_lines (range (b -ℤ a)) a s.ram) s.server))

option_intro :
    {A B : Type 0} (P : B → Type 0) (o : Option A) (n : B) (f : A → B)
    → P n
    → ((a : A) → P (f a))
    → P (elim o [ none ↦ n | some a ↦ f a ])
option_intro P none n f h k = h
option_intro P (some a) n f h k = k a

handle_argument-Keeps :
    (cmd : Bytes) (s : Session) → Keeps s.server.received (handle_argument cmd s)
unfolding handle_argument
handle_argument-Keeps cmd s =
    option_intro (Keeps s.server.received) (behind_word (codes "BREAK ") cmd) _ _
      (option_intro (Keeps s.server.received) (behind_word (codes "CLEAR ") cmd) _ _
        (option_intro (Keeps s.server.received) (behind_word (codes "STATE ") cmd) _ _
          (option_intro (Keeps s.server.received) (behind_word (codes "SET ") cmd) _ _ refl
            (λ arg. before_blank-Keeps s (split_at b' ' arg)))
          (λ arg. show_state-Keeps (extract_int arg).0 (second_int (extract_int arg).1) s))
        (λ arg. with_breakpoints-Keeps erase s (stoi arg)))
      (λ arg. with_breakpoints-Keeps insert s (stoi arg))

handle_command-Keeps : (cmd : Bytes) (s : Session) → Keeps s.server.received (handle_command cmd s)
unfolding handle_command
handle_command-Keeps cmd s =
    if_intro (Keeps s.server.received) (beq cmd (codes "CONTINUE")) _ _ (λ _. refl)
      (λ _.
        if_intro (Keeps s.server.received) (beq cmd (codes "STEP")) _ _ (λ _. refl)
          (λ _. handle_argument-Keeps cmd s))

more :
    (ends : Verdict → Option Bool) (n k : ℕ) (t : Bytes) (r : Result (Verdict × Session))
    → Keeps t r
    → ((s : Session) → s.server.received ≡ t → serve ends (n + k) s ≡ serve ends n s)
    → decide ends (serve ends (n + k)) r ≡ decide ends (serve ends n) r
more ends n k t (fail e) h f = refl
more ends n k t (ok (v, s)) h f =
    ap (λ (z : Result (Bool × Session)). elim (ends v) [ none ↦ z | some b ↦ ok (b, s) ]) (f s h)

same_branch :
    {A : Type 0} (c : Bool) (x a b : A)
    → (c ≡ false → a ≡ b)
    → (if c then x else a) ≡ (if c then x else b)
same_branch true x a b h = refl
same_branch false x a b h = h refl

suc_add : (n k : ℕ) → suc n + k ≡ suc (n + k)
suc_add n k = omega arith

-- As many rounds as there are characters to be read, and one, are enough.
serve_more :
    (ends : Verdict → Option Bool) (n k : ℕ) (s : Session)
    → length s.server.received < n
    → serve ends (n + k) s ≡ serve ends n s
unfolding serve
serve_more ends zero k s h = absurd (omega (arith, h))
serve_more ends (suc n) k s h =
    ap (λ j. serve ends j s) (suc_add n k)
    ∙ same_branch (is_empty (read_line s.server.received).0) _ _ _ (λ e.
      more ends n k (read_line s.server.received).1
        (handle_command (read_line s.server.received).0 (unread (read_line s.server.received).1 s))
        (handle_command-Keeps (read_line s.server.received).0
          (unread (read_line s.server.received).1 s))
        (λ s' h'.
          serve_more ends n k s'
            (ground (arith, h', read_line_from-shorter [] s.server.received e))))

-- The command that a session reads next, and the session behind its line.
abbrev pub next_command : Session → Bytes
next_command s = (read_line s.server.received).0

abbrev pub behind_command : Session → Session
behind_command s = unread (read_line s.server.received).1 s

-- The sessions that the commands of a session lead to, one after the other, none of which ends the
-- loop.
pub data Reaches (ends : Verdict → Option Bool) : Session → Session → Type 0 where
  here : (s : Session) → Reaches ends s s
  after :
      (s s' t : Session) (v : Verdict)
      → is_empty (next_command s) ≡ false
      → handle_command (next_command s) (behind_command s) ≡ ok (v, s')
      → ends v ≡ none
      → Reaches ends s' t
      → Reaches ends s t

-- The commands of the session lead to one that fails with this fault.
abbrev pub Fails : (Verdict → Option Bool) → Session → Fault → Type 0
Fails ends s e =
    (t : Session) × Reaches ends s t
    × (is_empty (next_command t) ≡ false)
    × (handle_command (next_command t) (behind_command t) ≡ fail e)

end_or_more :
    (ends : Verdict → Option Bool) (n : ℕ) (s s' : Session) (v : Verdict) (e : Fault)
    (o : Option Bool)
    → is_empty (next_command s) ≡ false
    → handle_command (next_command s) (behind_command s) ≡ ok (v, s')
    → ends v ≡ o
    → elim o [ none ↦ serve ends n s' | some b ↦ ok (b, s') ] ≡ fail e
    → (serve ends n s' ≡ fail e → Fails ends s' e)
    → Fails ends s e
end_or_more ends n s s' v e none full is stays failed others =
    let (t, reached, filled, fails) = others failed in
    (t, after s s' t v full is stays reached, filled, fails)
end_or_more ends n s s' v e (some b) full is stays failed others = absurd (ground (arith, failed))

decided :
    (ends : Verdict → Option Bool) (n : ℕ) (t : Bytes) (s : Session) (e : Fault)
    (r : Result (Verdict × Session))
    → is_empty (next_command s) ≡ false
    → handle_command (next_command s) (behind_command s) ≡ r
    → Keeps t r
    → ((s' : Session) → s'.server.received ≡ t → serve ends n s' ≡ fail e → Fails ends s' e)
    → decide ends (serve ends n) r ≡ fail e
    → Fails ends s e
decided ends n t s e (fail e') full is h f failed = (s, here s, full, is ∙ cc)
decided ends n t s e (ok (v, s')) full is h f failed =
    end_or_more ends n s s' v e (ends v) full is refl failed (f s' h)

serve_fault :
    (ends : Verdict → Option Bool) (n : ℕ) (s : Session) (e : Fault)
    → length s.server.received < n
    → serve ends n s ≡ fail e
    → Fails ends s e
unfolding serve
serve_fault ends zero s e h = absurd (omega (arith, h))
serve_fault ends (suc n) s e h =
    if_intro (λ (x : Result (Bool × Session)). x ≡ fail e → Fails ends s e)
      (is_empty (next_command s)) _ _ (λ _ failed. absurd (ground (arith, failed)))
      (λ full.
        decided ends n (read_line s.server.received).1 s e
          (handle_command (next_command s) (behind_command s)) full refl
          (handle_command-Keeps (next_command s) (behind_command s))
          (λ s' same.
            serve_fault ends n s' e
              (ground (arith, same, read_line_from-shorter [] s.server.received full))))

-- The loop over a session has ended with an answer, or a command that this session reaches has
-- failed, with the same fault.
abbrev pub IsAnswered : (Verdict → Option Bool) → Session → Result (Bool × Session) → Type 0
IsAnswered ends s r =
    ((p : Bool × Session) × (r ≡ ok p)) ⊎ ((e : Fault) × (r ≡ fail e) × Fails ends s e)

answered :
    (ends : Verdict → Option Bool) (s : Session) (r : Result (Bool × Session))
    → ((e : Fault) → r ≡ fail e → Fails ends s e)
    → IsAnswered ends s r
answered ends s (ok p) h = inl (p, refl)
answered ends s (fail e) h = inr (e, refl, h e refl)

-- The loop over the lines of the client has rounds enough: it gives the same result with any more
-- rounds than `enough`, and it ends with an answer, unless one of the commands that it comes to in
-- this session fails, and then with the fault of that command.
pub serve-enough :
    (ends : Verdict → Option Bool) (k : ℕ) (s : Session)
    → (serve ends (enough s + k) s ≡ serve ends (enough s) s)
      × IsAnswered ends s (serve ends (enough s) s)
serve-enough ends k s = (
  serve_more ends (enough s) k s (omega arith),
  answered ends s (serve ends (enough s) s) (λ e. serve_fault ends (enough s) s e (omega arith)),
)
