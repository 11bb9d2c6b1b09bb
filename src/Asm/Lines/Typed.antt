-- ===== src/Asm/Lines/Typed.antt =====
-- Why a line that matches the pattern of its command in compiler.cpp has the operands that the
-- command takes.
use kagu_os.Prelude.{
  ℕ, zero, suc, ◌+◌, ◌≡◌, refl, sym, ap, ◌∙◌, subst, inl, inr, true, false, ◌&&◌, ◌||◌, Option,
  none, some, List, [], ◌∷◌, ◌++◌, arith, ◌==◌, if◌then◌else◌, Bool-cases, if_intro, All,
}
use kagu_os.Asm.Lines.Signatures.{
  IsTyped, Kind, lone_signature, jump_signature, signatures, to_signature, written_value, copied,
}
use kagu_os.Asm.Lines.Groups.{IsOpen, groups_of, IsExpected, fits, group_of, groups-patterns}
use kagu_os.Asm.Lines.{find_command, pattern_of}
use kagu_os.Asm.Symbols.{begins}
use kagu_os.Asm.Words.{written_text, comment_pattern, lexemes_of, patterns, joined, pattern_of}
use kagu_os.Std.Text.{Bytes, codes, beq, beq→eq}
use kagu_os.Std.Map.{lookup}
use kagu_os.Asm.Lexer.{Lexeme, type_to_string, to_pattern, parse}
use kagu_os.Asm.Patterns.{
  groups, drop_last, drop_first, alternatives, match_groups, CommandPattern, command_patterns,
  unescape, match_pattern, match?,
}
use kagu_os.Asm.Emit.{command_of}
use kagu_os.Asm.Lexer

parse-IsOpen : (t : Bytes) → IsOpen (parse t)
unfolding parse
parse-IsOpen [] = refl
parse-IsOpen (c ∷ t) =
    if_intro IsOpen (begins (codes "//") (c ∷ t)) _ _ (λ _. refl)
      (λ _. if_intro IsOpen (c == b'@' || c == b'*') _ _ (λ e. ground (arith, e)) (λ _. refl))

lexemes_of-IsOpen :
    (line cmd : Bytes) (n i : ℕ) (ts : List Bytes) → All IsOpen (lexemes_of line cmd n i ts).0
unfolding lexemes_of
lexemes_of-IsOpen line cmd zero i ts = tt
lexemes_of-IsOpen line cmd (suc n) i [] = tt
lexemes_of-IsOpen line cmd (suc n) i (t ∷ ts) =
    if_intro (λ (x : List Lexeme × List Bytes). All IsOpen x.0) (begins (codes "//") t) _ _
      (λ _. tt)
      (λ _. (
        parse-IsOpen (if i == 1 && beq cmd (codes "write") then written_text line t else t),
        lexemes_of-IsOpen line cmd n (i + 1) ts,
      ))

-- The comment of a line is a group too.
comment_of : (ts : List Bytes) → (g : Lexeme) × (comment_pattern ts ≡ to_pattern g) × IsOpen g
unfolding to_pattern type_to_string
comment_of [] = (record { prefix = b'_'; type = Lexer.comment; value = [] }, refl, refl)
comment_of (t ∷ ts) = (parse (joined (t ∷ ts)), refl, parse-IsOpen (joined (t ∷ ts)))

cleaned : CommandPattern → Bytes
cleaned p = unescape (drop_last b'$' (drop_first b'^' p.pattern))

-- What a pattern of the table says of its instructions.
abbrev IsSigned : CommandPattern → Type 0
IsSigned p =
    beq p.name (codes "var") ≡ false
    → beq p.name (codes "label") ≡ false
    → (sig : List (List Kind)) × (n : ℕ) × (es : List Bytes) × (lookup p.name signatures ≡ some sig)
      × (p.lexeme_count ≡ suc n)
      × (groups none (cleaned p) ≡ some es)
      × IsExpected sig es
      × ((parse p.name).value ≡ p.name)

patterns-IsSigned : All IsSigned command_patterns
unfolding lookup groups cleaned parse beq alternatives unescape type_to_string
patterns-IsSigned = (
  (λ e f. cc),
  (
    (λ e f. cc),
    (
      (λ e f. (lone_signature, 0, _, refl, refl, refl, (refl, tt), refl)),
      (
        (λ e f. (lone_signature, 0, _, refl, refl, refl, (refl, tt), refl)),
        (
          (λ e f. (lone_signature, 0, _, refl, refl, refl, (refl, tt), refl)),
          (
            (λ e f. (jump_signature, 1, _, refl, refl, refl, (refl, (refl, tt)), refl)),
            (
              (λ e f. (jump_signature, 1, _, refl, refl, refl, (refl, (refl, tt)), refl)),
              (
                (λ e f. (jump_signature, 1, _, refl, refl, refl, (refl, (refl, tt)), refl)),
                (
                  (λ e f. (jump_signature, 1, _, refl, refl, refl, (refl, (refl, tt)), refl)),
                  (
                    (λ e f. (
                      to_signature written_value,
                      4,
                      _,
                      refl,
                      refl,
                      refl,
                      (refl, (refl, (refl, (refl, tt)))),
                      refl,
                    )),
                    (
                      (λ e f. (
                        to_signature copied,
                        4,
                        _,
                        refl,
                        refl,
                        refl,
                        (refl, (refl, (refl, (refl, tt)))),
                        refl,
                      )),
                      tt,
                    ),
                  ),
                ),
              ),
            ),
          ),
        ),
      ),
    ),
  ),
)

find_command_lem :
    (P : CommandPattern → Type 0) (cmd : Bytes) (ps : List CommandPattern) (p : CommandPattern)
    → All P ps
    → find_command cmd ps ≡ some p
    → P p × (p.name ≡ cmd)
unfolding find_command
find_command_lem P cmd [] p hs h = absurd (ground (arith, h))
find_command_lem P cmd (q ∷ ps) p (hq, hs) h = elim (Bool-cases (beq q.name cmd)) [
  | inl e ↦
      let same : q ≡ p =
        ap (λ (o : Option CommandPattern). elim o [ none ↦ q | some x ↦ x ])
          (subst (λ b. (if b then some q else find_command cmd ps) ≡ some p) e h) in
      (subst P same hq, ap (λ (x : CommandPattern). x.name) (sym same) ∙ beq→eq q.name cmd e)
  | inr e ↦ find_command_lem P cmd ps p hs (ground (arith, h, e))
]

-- The first word of a line is its command.
first_command :
    (line cmd : Bytes) (n : ℕ) (ts : List Bytes)
    → begins (codes "//") cmd ≡ false
    → command_of (lexemes_of line cmd (suc n) 0 (cmd ∷ ts)).0 ≡ (parse cmd).value
unfolding lexemes_of
first_command line cmd n ts h = rw h refl

match_groups_of :
    (ls : List Lexeme) (ts : List Bytes) (p : CommandPattern) (es : List Bytes)
    → All IsOpen ls
    → groups none (cleaned p) ≡ some es
    → match_pattern (pattern_of (ls, ts)) p.pattern ≡ true
    → (g : Bytes) × (match_groups (groups_of ls ++ g ∷ []) es ≡ true)
unfolding match_pattern pattern_of cleaned
match_groups_of ls ts p es hs e h =
    let (g, at, open_g) = comment_of ts in
    (
      group_of g,
      sym (
            ap (λ (x : Option (List Bytes)). match? x (groups none (cleaned p)))
              (ap (λ (t : Bytes). groups none (patterns ls ++ t)) at
                ∙ groups-patterns ls g hs open_g)
            ∙ ap (match? (some (groups_of ls ++ group_of g ∷ []))) e)
          ∙ h,
    )

-- The words
pub matched-IsTyped :
    (line cmd : Bytes) (ts : List Bytes) (p : CommandPattern)
    → begins (codes "//") cmd ≡ false
    → find_command cmd command_patterns ≡ some p
    → match_pattern (pattern_of (lexemes_of line cmd p.lexeme_count 0 (cmd ∷ ts))) p.pattern ≡ true
    → beq cmd (codes "var") ≡ false
    → beq cmd (codes "label") ≡ false
    → IsTyped (lexemes_of line cmd p.lexeme_count 0 (cmd ∷ ts)).0
matched-IsTyped line cmd ts p plain_cmd found matches v l =
    let ls = (lexemes_of line cmd p.lexeme_count 0 (cmd ∷ ts)).0 in
    let (signed, name) = find_command_lem IsSigned cmd command_patterns p patterns-IsSigned found in
    let (sig, n, es, takes, count, split, expected, val) =
      signed (ap (λ c. beq c (codes "var")) name ∙ v) (ap (λ c. beq c (codes "label")) name ∙ l) in
    let (g, same) =
      match_groups_of ls (lexemes_of line cmd p.lexeme_count 0 (cmd ∷ ts)).1 p es
        (lexemes_of-IsOpen line cmd p.lexeme_count 0 (cmd ∷ ts)) split matches in
    let first : command_of ls ≡ p.name =
      ap (λ k. command_of (lexemes_of line cmd k 0 (cmd ∷ ts)).0) count
      ∙ first_command line cmd n ts plain_cmd
      ∙ ap (λ c. (parse c).value) (sym name)
      ∙ val in
    (sig, ap (λ c. lookup c signatures) first ∙ takes, fits sig es ls g expected same)
