-- ===== src/Server/Framing.antt =====
-- `data_received` of ShellProtocol in bantu_os/core/socket_server.py, which AdminProtocol of
-- bantu_os/services/service_manager.py repeats: the bytes of a connection are cut into lines. What
-- Python's `decode` makes of the bytes of a line is a parameter.
pub mod Chunks
use bantu_os.Prelude.{
  ℕ, zero, suc, ◌+◌, Option, none, some, List, [], ◌∷◌, ◌++◌, eqb, length, if◌then◌else◌,
}
use bantu_os.Prelude.Text.{Text}
use bantu_os.Auth.Names.{strip}

-- `buffer.split(b"\n", 1)`, or `none` where the buffer has no b"\n".
unfoldable pub split_once : Text → Option (Text × Text)
split_once [] = none
split_once (b ∷ rest) =
    let more = split_once rest in
    if eqb b 10
    then some ([], rest)
    else elim more [ none ↦ none | some (line, after) ↦ some (b ∷ line, after) ]

-- `if not line: continue`, or a task for the line.
unfoldable pub emit : Text → List Text → List Text
emit [] lines = lines
emit (c ∷ s) lines = (c ∷ s) ∷ lines

module _ (decode : Text → Text) where
  -- The loop `while b"\n" in self.buffer`: the lines that get a task, and the buffer that is left.
  unfoldable pub drain : ℕ → Text → List Text × Text
  unfolding split_once emit
  drain zero buffer = ([], buffer)
  drain (suc f) buffer = elim (split_once buffer) [
    | none ↦ ([], buffer)
    | some (line, after) ↦
        let (lines, left) = drain f after in (emit (strip (decode line)) lines, left)
  ]

  -- Each round takes a byte at least, so that as many rounds as there are bytes are enough.
  unfoldable pub data_received : Text → Text → List Text × Text
  data_received chunk buffer = drain (length (buffer ++ chunk)) (buffer ++ chunk)

  -- The chunks that arrive, one after the other.
  unfoldable pub received : List Text → Text → List Text × Text
  received [] buffer = ([], buffer)
  received (chunk ∷ rest) buffer =
      let (lines, left) = data_received chunk buffer in
      let (more, last) = received rest left in (lines ++ more, last)
