-- ===== src/DebugServer/Dialogue.antt =====
-- A dialogue with the debugger: the commands of a pause, one behind the other, and the one that ends
-- it.
use kagu_os.Prelude.{
  ℕ, zero, suc, ◌<◌, ◌≡◌, refl, ap, ◌∙◌, Bool, true, false, Option, none, some, List, [], ◌∷◌, ◌++◌,
  arith, length, All, ℤ,
}
use kagu_os.Std.Text.{Bytes, is_empty}
use kagu_os.Std.Fault.{ok, Result}
use kagu_os.Std.Number.{to_string}
use kagu_os.Std.Stream.Words.{to_string-has_no_space}
use kagu_os.DebugServer.Lines.{is_line, is_line-append, has_no_space-is_line, read_line-append}
use kagu_os.DebugServer.Meaning.{does}
use kagu_os.DebugServer.Protocol.{
  Command, View, view, act, verdict_of, print, IsSendable, break_at, clear_at, show, assign,
  proceed, single_step, quit_program,
}
use kagu_os.DebugServer.Commands.{Session, Verdict, unread}
use kagu_os.DebugServer.Pause.{serve, decide}

number-is_line : (a : ℤ) → is_line (to_string a) ≡ true
number-is_line a = has_no_space-is_line (to_string a) (to_string-has_no_space a)

print-is_line : (c : Command) → IsSendable c → is_line (print c) ≡ true
unfolding print is_line IsSendable
print-is_line proceed h = refl
print-is_line single_step h = refl
print-is_line quit_program h = refl
print-is_line (break_at a) h = number-is_line a
print-is_line (clear_at a) h = number-is_line a
print-is_line (show a b) h =
    is_line-append (to_string a) (b' ' ∷ to_string b) (number-is_line a) (number-is_line b)
print-is_line (assign a v) (h, k) = is_line-append (to_string a) (b' ' ∷ v) (number-is_line a) k

is_empty-print : (c : Command) → is_empty (print c) ≡ false
unfolding print
is_empty-print proceed = refl
is_empty-print single_step = refl
is_empty-print quit_program = refl
is_empty-print (break_at a) = refl
is_empty-print (clear_at a) = refl
is_empty-print (show a b) = refl
is_empty-print (assign a v) = refl

-- The commands as the client sends them, in front of a text.
unfoldable pub sends : List Command → Bytes → Bytes
unfolding print
sends [] rest = rest
sends (c ∷ cs) rest = print c ++ b'\n' ∷ sends cs rest

-- What the commands mean, one behind the other.
unfoldable pub acts : List Command → View → View
unfolding act
acts [] w = w
acts (c ∷ cs) w = acts cs (act c w)

module _ (ends : Verdict → Option Bool) where
  -- A command behind which the loop reads the next one.
  abbrev pub IsQuery : Command → Type 0
  IsQuery c = IsSendable c × (ends (verdict_of c) ≡ none)

  -- The round of a command that can be sent.
  round :
      (c : Command) (n : ℕ) (s : Session) (t : Bytes)
      → IsSendable c
      → s.server.received ≡ print c ++ b'\n' ∷ t
      → (s' : Session) × (serve ends (suc n) s ≡ decide ends (serve ends n) (ok (verdict_of c, s')))
        × (view s' ≡ act c (view s))
        × (s'.server.received ≡ t)
        × (s'.server.connected ≡ s.server.connected)
  unfolding serve
  round c n s t h is =
      let (s', (done, seen, same, here)) = does c (unread t s) h in
      (
        s',
        rw (is, read_line-append (print c) t (print-is_line c h), is_empty-print c)
            (ap (decide ends (serve ends n)) done),
        seen,
        same,
        here,
      )

  ended :
      (v : Verdict) (o : Option Bool) (f : Session → Result (Bool × Session)) (s : Session)
      → ends v ≡ o
      → decide ends f (ok (v, s)) ≡ elim o [ none ↦ f s | some b ↦ ok (b, s) ]
  ended v o f s h = ap (λ (o : Option Bool). elim o [ none ↦ f s | some b ↦ ok (b, s) ]) h

  pub serve_dialogue :
      (cs : List Command) (last : Command) (go_on : Bool) (rest : Bytes) (n : ℕ) (s : Session)
      → All IsQuery cs
      → IsSendable last
      → ends (verdict_of last) ≡ some go_on
      → s.server.received ≡ sends cs (sends (last ∷ []) rest)
      → length cs < n
      → (s' : Session) × (serve ends n s ≡ ok (go_on, s'))
        × (view s' ≡ act last (acts cs (view s)))
        × (s'.server.received ≡ rest)
  unfolding acts sends
  serve_dialogue cs last go_on rest zero s qs h e is enough = absurd (omega (arith, enough))
  serve_dialogue [] last go_on rest (suc n) s qs h e is enough =
      let (s', served, seen, same, here) = round last n s rest h is in
      (s', served ∙ ended (verdict_of last) (some go_on) (serve ends n) s' e, seen, same)
  serve_dialogue (c ∷ cs) last go_on rest (suc n) s ((hc, ec), qs) h e is enough =
      let (s', served, seen, same, here) = round c n s (sends cs (sends (last ∷ []) rest)) hc is in
      let (s'', served', seen', same') =
        serve_dialogue cs last go_on rest n s' qs h e same (omega (arith, enough)) in
      (
        s'',
        served ∙ ended (verdict_of c) none (serve ends n) s' ec ∙ served',
        seen' ∙ ap (λ w. act last (acts cs w)) seen,
        same',
      )
