-- ===== src/Asm/Patterns.antt =====
-- The table of commands of compiler.cpp, and `matchPattern`: the groups of an actual pattern against
-- the alternatives of an expected one.
use kagu_os.Prelude.{
  ℕ, Bool, true, false, ◌&&◌, ◌||◌, Option, none, some, List, [], ◌∷◌, ◌++◌, ◌==◌, if◌then◌else◌,
}
use kagu_os.Std.Text.{Bytes, beq, codes}

-- `CommandPattern`
pub record CommandPattern : Type 0 where
  pub name : Bytes
  pub lexeme_count : ℕ
  pub pattern : Bytes
  pub syntax : Bytes

-- `COMMAND_PATTERNS`
abbrev pub command_patterns : List CommandPattern
command_patterns =
    record {
      name = codes "var";
      lexeme_count = 2;
      pattern = codes "^\\(_ cmd\\)\\(_ nam\\)\\(_ cmt\\)$";
      syntax =
          codes
            "var name - name should start from a letter and contain only letters, numbers and _";
    }
    ∷ record {
      name = codes "label";
      lexeme_count = 2;
      pattern = codes "^\\(_ cmd\\)\\(_ nam\\)\\(_ cmt\\)$";
      syntax =
          codes
            "label name - name should start from a letter and contain only letters, numbers and _";
    }
    ∷ record {
      name = codes "cpu_exec";
      lexeme_count = 1;
      pattern = codes "^\\(_ cmd\\)\\(_ cmt\\)$";
      syntax =
          codes
            "cpu_exec - should just contain this single command, it will execute what is stored in the operation register";
    }
    ∷ record {
      name = codes "DEBUG_ON";
      lexeme_count = 1;
      pattern = codes "^\\(_ cmd\\)\\(_ cmt\\)$";
      syntax = codes "DEBUG_ON - should just contain this single command";
    }
    ∷ record {
      name = codes "DEBUG_OFF";
      lexeme_count = 1;
      pattern = codes "^\\(_ cmd\\)\\(_ cmt\\)$";
      syntax = codes "DEBUG_OFF - should just contain this single command";
    }
    ∷ record {
      name = codes "jump_err";
      lexeme_count = 2;
      pattern =
          codes
            "^\\(_ cmd\\)\\(_ num\\|\\* num\\|_ lbl\\|\\* lbl\\|_ var\\|\\* var\\|\\* reg\\)\\(_ cmt\\)$";
      syntax =
          codes
            "jump_err 100 or jump_err label:someName or jump_err *100 or jump_err *var:varName or jump_err *REG_A";
    }
    ∷ record {
      name = codes "jump_if_not";
      lexeme_count = 2;
      pattern =
          codes
            "^\\(_ cmd\\)\\(_ num\\|\\* num\\|_ lbl\\|\\* lbl\\|_ var\\|\\* var\\|\\* reg\\)\\(_ cmt\\)$";
      syntax =
          codes
            "jump_if_not 100 or jump_if_not label:someName or jump_if_not *100 or jump_if_not *var:varName or jump_if_not *REG_A";
    }
    ∷ record {
      name = codes "jump_if";
      lexeme_count = 2;
      pattern =
          codes
            "^\\(_ cmd\\)\\(_ num\\|\\* num\\|_ lbl\\|\\* lbl\\|_ var\\|\\* var\\|\\* reg\\)\\(_ cmt\\)$";
      syntax =
          codes
            "jump_if 100 or jump_if label:someName or jump_if *100 or jump_if *var:varName or jump_if *REG_A";
    }
    ∷ record {
      name = codes "jump";
      lexeme_count = 2;
      pattern =
          codes
            "^\\(_ cmd\\)\\(_ num\\|\\* num\\|_ lbl\\|\\* lbl\\|_ var\\|\\* var\\|\\* reg\\)\\(_ cmt\\)$";
      syntax =
          codes "jump label:someName or jump 100 or jump *100 or jump *var:varName or jump *REG_A";
    }
    ∷ record {
      name = codes "write";
      lexeme_count = 5;
      pattern =
          codes
            "^\\(_ cmd\\)\\(_ str\\|_ num\\|_ opr\\|_ sys\\|_ clr\\|_ mod\\|_ lbl\\)\\(_ kto\\)\\(_ num\\|\\* num\\|_ reg\\|\\* reg\\|_ var\\|\\* var\\)\\(_ cmt\\)$";
      syntax =
          codes
            "'write \"some string\" to address' or 'write 100 to address' or 'write OP_* to address' or 'write COLOR_* to address' or 'write SYS_CALL_* to address'";
    }
    ∷ record {
      name = codes "copy";
      lexeme_count = 5;
      pattern =
          codes
            "^\\(_ cmd\\)\\(_ num\\|\\* num\\|_ reg\\|\\* reg\\|_ var\\|\\* var\\|@ var\\)\\(_ kto\\)\\(_ num\\|\\* num\\|_ reg\\|\\* reg\\|_ var\\|\\* var\\)\\(_ cmt\\)$";
      syntax = codes "copy someAddress to otherAddress";
    }
    ∷ []

-- `expected.back() == '$'` removed
abbrev pub drop_last : ℕ → Bytes → Bytes
drop_last c [] = []
drop_last c (d ∷ []) = if d == c then [] else d ∷ []
drop_last c (d ∷ e ∷ s) = d ∷ drop_last c (e ∷ s)

abbrev pub drop_first : ℕ → Bytes → Bytes
drop_first c [] = []
drop_first c (d ∷ s) = if d == c then s else d ∷ s

-- A backslash gives way to the character behind it, unless it is the last one.
unfoldable pub unescape : Bytes → Bytes
unescape [] = []
unescape (c ∷ []) = c ∷ []
unescape (c ∷ d ∷ s) =
    let escaped = d ∷ unescape s in
    let plain = c ∷ unescape (d ∷ s) in if c == 92 then escaped else plain

abbrev pub cons? : Bytes → Option (List Bytes) → Option (List Bytes)
cons? g none = none
cons? g (some gs) = some (g ∷ gs)

-- The texts between parentheses; `none` where one is not closed. Inside a group, `current` holds
-- what has been read of it.
unfoldable pub groups : Option Bytes → Bytes → Option (List Bytes)
groups none [] = some []
groups (some current) [] = none
groups none (c ∷ s) =
    let opened = groups (some []) s in
    let skipped = groups none s in if c == b'(' then opened else skipped
groups (some current) (c ∷ s) =
    let closed = cons? current (groups none s) in
    let longer = groups (some (current ++ c ∷ [])) s in if c == b')' then closed else longer

unfoldable pub alternatives : Bytes → Bytes → List Bytes
alternatives current [] = current ∷ []
alternatives current (c ∷ s) =
    let next = current ∷ alternatives [] s in
    let longer = alternatives (current ++ c ∷ []) s in if c == b'|' then next else longer

abbrev pub any_is : Bytes → List Bytes → Bool
any_is g [] = false
any_is g (alt ∷ alts) = beq g alt || any_is g alts

-- Group by group, and no group left over.
unfoldable pub match_groups : List Bytes → List Bytes → Bool
unfolding alternatives beq
match_groups [] [] = true
match_groups [] (e ∷ es) = false
match_groups (a ∷ as') [] = false
match_groups (a ∷ as') (e ∷ es) = any_is a (alternatives [] e) && match_groups as' es

abbrev pub match? : Option (List Bytes) → Option (List Bytes) → Bool
match? none _ = false
match? (some as') none = false
match? (some as') (some es) = match_groups as' es

-- `matchPattern`
unfoldable pub match_pattern : Bytes → Bytes → Bool
unfolding unescape groups match_groups
match_pattern pattern expected =
    match? (groups none pattern)
      (groups none (unescape (drop_last b'$' (drop_first b'^' expected))))
