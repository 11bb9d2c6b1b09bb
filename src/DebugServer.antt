-- ===== src/DebugServer.antt =====
-- debug_server.cpp: the state of the debug server, the lines that it reads and sends, and its set of
-- breakpoints. The socket is the text that the client is still to send, before it hangs up, and the
-- text that it has been sent; a client that is connected takes what it is sent.
pub mod Commands
pub mod Pause
pub mod Breakpoints
pub mod Lines
pub mod Protocol
pub mod Replies
pub mod Meaning
pub mod Fuel
pub mod Dialogue
pub mod Sessions
use kagu_os.Prelude.{Bool, false, ◌||◌, List, [], ◌∷◌, ◌++◌, ◌==◌, if◌then◌else◌, ℤ, eqb_ℤ}
use kagu_os.Std.Text.{Bytes}

pub record DebugServer : Type 0 where
  pub connected : Bool
  pub breakpoints : List ℤ
  pub step_mode : Bool
  pub received : Bytes
  pub sent : Bytes

-- `DebugServer::DebugServer`, with what its client will send
unfoldable pub new : Bytes → DebugServer
new received = record {
  connected = false;
  breakpoints = [];
  step_mode = false;
  received = received;
  sent = [];
}

-- `breakpoints_.count(pc) > 0`
unfoldable pub contains : ℤ → List ℤ → Bool
contains a [] = false
contains a (b ∷ bs) = eqb_ℤ b a || contains a bs

unfoldable pub insert : ℤ → List ℤ → List ℤ
unfolding contains
insert a bs = if contains a bs then bs else a ∷ bs

unfoldable pub erase : ℤ → List ℤ → List ℤ
erase a [] = []
erase a (b ∷ bs) = let rest = erase a bs in if eqb_ℤ b a then rest else b ∷ rest

-- `readLine` with the line that has been read: a line ends with a newline, returns are left out, and
-- where the client hangs up the line is empty. The second text is still to be read.
unfoldable pub read_line_from : Bytes → Bytes → Bytes × Bytes
read_line_from line [] = ([], [])
read_line_from line (c ∷ s) =
    let longer = read_line_from (line ++ c ∷ []) s in
    let same = read_line_from line s in
    if c == b'\n' then (line, s) else if c == b'\r' then same else longer

unfoldable pub read_line : Bytes → Bytes × Bytes
unfolding read_line_from
read_line s = read_line_from [] s

-- `sendLine`
abbrev pub send_line : Bytes → DebugServer → DebugServer
send_line line d = record d { sent = d.sent ++ (line ++ b'\n' ∷ []) }
