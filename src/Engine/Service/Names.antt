-- ===== src/Engine/Service/Names.antt =====
-- What the texts of engine/crates/muxdeck-engine/src/service.rs say: which program is started, for whom
-- and when.
use Prim.Native.String.{◌++◌ as append}
use Prim.Native.String.append.{nil}
use text.Mathlib.TextLemmas.{append_assoc}
use muxdeck.Prelude.{ℕ, zero, suc, ◌≡◌, sym, ap, ◌∙◌, String, List, [], ◌∷◌}
use muxdeck.Prelude.Text.{format}
use muxdeck.Engine.Service.Escape.{xml_escape}
use muxdeck.Engine.Service.Texts.{systemd_unit, launch_agent_plist, windows_task_xml, launchd_label}

-- A piece stands in a text.
abbrev pub Holds : String → String → Type 0
Holds text piece = (before after : String) × (text ≡ append before (append piece after))

abbrev take : ℕ → List String → List String
take zero xs = []
take (suc n) [] = []
take (suc n) (x ∷ xs) = x ∷ take n xs

abbrev drop : ℕ → List String → List String
drop zero xs = xs
drop (suc n) [] = []
drop (suc n) (x ∷ xs) = drop n xs

format-take :
    (n : ℕ) (xs : List String) → format xs ≡ append (format (take n xs)) (format (drop n xs))
unfolding format
format-take zero xs = sym (nil (format xs))
format-take (suc n) [] = sym (nil "")
format-take (suc n) (x ∷ xs) =
    ap (append x) (format-take n xs)
    ∙ sym (append_assoc x (format (take n xs)) (format (drop n xs)))

-- Pieces that are put together stand in the text, the first `n` before them.
format-Holds : (n k : ℕ) (xs : List String) → Holds (format xs) (format (take k (drop n xs)))
format-Holds n k xs = (
  format (take n xs),
  format (drop k (drop n xs)),
  format-take n xs ∙ ap (append (format (take n xs))) (format-take k (drop n xs)),
)

-- The unit starts this program, with every session.
abbrev pub UnitStarts : String → String → Type 0
UnitStarts exe text =
    Holds text (format ("[Service]\n" ∷ "Type=simple\n" ∷ "ExecStart=\"" ∷ exe ∷ "\"\n" ∷ []))
    × Holds text (format ("[Install]\n" ∷ "WantedBy=default.target\n" ∷ []))

-- The agent runs this program when it is loaded.
abbrev pub AgentStarts : String → String → Type 0
AgentStarts exe text =
    Holds text
      (format ("    <key>Label</key>\n" ∷ "    <string>" ∷ launchd_label ∷ "</string>\n" ∷ []))
    × Holds text (
        format (
          "    <key>ProgramArguments</key>\n"
          ∷ "    <array>\n"
          ∷ "        <string>"
          ∷ xml_escape exe
          ∷ "</string>\n"
          ∷ "    </array>\n"
          ∷ "    <key>RunAtLoad</key>\n"
          ∷ "    <true/>\n"
          ∷ []))

-- The task starts this program when this user logs on.
abbrev pub TaskStarts : String → String → String → Type 0
TaskStarts exe user text =
    Holds text (
      format (
        "    <LogonTrigger>\n"
        ∷ "      <Enabled>true</Enabled>\n"
        ∷ "      <UserId>"
        ∷ xml_escape user
        ∷ "</UserId>\n"
        ∷ "    </LogonTrigger>\n"
        ∷ []))
    × Holds text (
        format (
          "    <Exec>\n"
          ∷ "      <Command>"
          ∷ xml_escape exe
          ∷ "</Command>\n"
          ∷ "    </Exec>\n"
          ∷ []))

pub systemd_unit-UnitStarts : (exe : String) → UnitStarts exe (systemd_unit exe)
unfolding systemd_unit
systemd_unit-UnitStarts exe = (format-Holds 4 5 _, format-Holds 12 2 _)

pub plist-AgentStarts : (exe : String) → AgentStarts exe (launch_agent_plist exe)
unfolding launch_agent_plist
plist-AgentStarts exe = (format-Holds 4 4 _, format-Holds 8 8 _)

pub windows_task-TaskStarts : (exe user : String) → TaskStarts exe user (windows_task_xml exe user)
unfolding windows_task_xml
windows_task-TaskStarts exe user = (format-Holds 6 6 _, format-Holds 46 5 _)
