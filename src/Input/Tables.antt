-- ===== src/Input/Tables.antt =====
-- The three key tables tell keys apart.
use muxdeck.Prelude.{◌≡◌, ◌↔◌, ◌⊎◌, inl, inr, sym, ap, ◌∙◌, In, Option-cases}
use muxdeck.Protocol.Keys.{Key}
use muxdeck.Input.Linux.Keymap as Linux
use muxdeck.Input.Windows.Keymap as Windows
use muxdeck.Input.Macos.Keymap as Macos
use muxdeck.Input.Linux.Table as LinuxTable
use muxdeck.Input.Windows.Table as WindowsTable
use muxdeck.Input.Macos.Table as MacosTable
use muxdeck.Input.Macos.Table.{unmapped}

macos_codes :
    (a b : Key) → Macos.key_code a ≡ Macos.key_code b → (a ≡ b) ⊎ (In a unmapped × In b unmapped)
macos_codes a b e = elim (Option-cases (Macos.key_code a)) [
  | inl lacks ↦
      inr ((MacosTable.key_code-none a).0 lacks, (MacosTable.key_code-none b).0 (sym e ∙ lacks))
  | inr (c, found) ↦ inl (MacosTable.key_code_inj a b c found (sym e ∙ found))
]

macos_same :
    (a b : Key) → (a ≡ b) ⊎ (In a unmapped × In b unmapped) → Macos.key_code a ≡ Macos.key_code b
macos_same a b (inl e) = ap Macos.key_code e
macos_same a b (inr (x, y)) =
    (MacosTable.key_code-none a).1 x ∙ sym ((MacosTable.key_code-none b).1 y)

-- Two keys are told apart on every system: on Linux by their codes, on Windows by the virtual key
-- together with the extended flag, on macOS by their codes unless it lacks both of them.
pub keys_told_apart :
    (a b : Key)
    → ((Linux.key_code a ≡ Linux.key_code b) ↔ (a ≡ b))
      × ((((Windows.virtual_key a ≡ Windows.virtual_key b)
              × (Windows.is_extended a ≡ Windows.is_extended b))
            ↔ (a ≡ b))
          × ((Macos.key_code a ≡ Macos.key_code b) ↔ ((a ≡ b) ⊎ (In a unmapped × In b unmapped))))
keys_told_apart a b = (
  (LinuxTable.key_code_inj a b, ap Linux.key_code),
  (
    (
      λ p. (WindowsTable.virtual_key_inj a b p.0 p.1).0,
      λ e. (ap Windows.virtual_key e, ap Windows.is_extended e),
    ),
    (macos_codes a b, macos_same a b),
  ),
)
