-- ===== src/Engine/Service/Texts.antt =====
-- The files that register the daemon: `windows_task_xml`, `launch_agent_plist`, `systemd_unit` and
-- `UDEV_RULE` of engine/crates/muxdeck-engine/src/service.rs. A path is the text that `display` shows.
use muxdeck.Prelude.{ℕ, ◌/◌, ◌%◌, String, List, [], ◌∷◌}
use muxdeck.Prelude.Text.{format}
use muxdeck.Prelude.Utf16.{encode_utf16}
use muxdeck.Engine.Service.Escape.{xml_escape}

abbrev pub launchd_label : String
launchd_label = "in.redoimagined.muxdeck"

unfoldable pub windows_task_xml : String → String → String
unfolding xml_escape
windows_task_xml path account =
    let exe = xml_escape path in
    let user = xml_escape account in
    format (
      "<?xml version=\"1.0\" encoding=\"UTF-16\"?>\n"
      ∷ "<Task version=\"1.2\" xmlns=\"http://schemas.microsoft.com/windows/2004/02/mit/task\">\n"
      ∷ "  <RegistrationInfo>\n"
      ∷ "    <Description>Starts the MuxDeck daemon in this user's desktop session at logon.</Description>\n"
      ∷ "  </RegistrationInfo>\n" ∷ "  <Triggers>\n" ∷ "    <LogonTrigger>\n"
      ∷ "      <Enabled>true</Enabled>\n" ∷ "      <UserId>" ∷ user ∷ "</UserId>\n"
      ∷ "    </LogonTrigger>\n" ∷ "  </Triggers>\n" ∷ "  <Principals>\n"
      ∷ "    <Principal id=\"Author\">\n" ∷ "      <UserId>" ∷ user ∷ "</UserId>\n"
      ∷ "      <LogonType>InteractiveToken</LogonType>\n"
      ∷ "      <RunLevel>LeastPrivilege</RunLevel>\n" ∷ "    </Principal>\n" ∷ "  </Principals>\n"
      ∷ "  <Settings>\n" ∷ "    <MultipleInstancesPolicy>IgnoreNew</MultipleInstancesPolicy>\n"
      ∷ "    <DisallowStartIfOnBatteries>false</DisallowStartIfOnBatteries>\n"
      ∷ "    <StopIfGoingOnBatteries>false</StopIfGoingOnBatteries>\n"
      ∷ "    <AllowHardTerminate>true</AllowHardTerminate>\n"
      ∷ "    <StartWhenAvailable>false</StartWhenAvailable>\n"
      ∷ "    <RunOnlyIfNetworkAvailable>false</RunOnlyIfNetworkAvailable>\n"
      ∷ "    <IdleSettings>\n" ∷ "      <StopOnIdleEnd>false</StopOnIdleEnd>\n"
      ∷ "      <RestartOnIdle>false</RestartOnIdle>\n" ∷ "    </IdleSettings>\n"
      ∷ "    <AllowStartOnDemand>true</AllowStartOnDemand>\n" ∷ "    <Enabled>true</Enabled>\n"
      ∷ "    <Hidden>false</Hidden>\n" ∷ "    <RunOnlyIfIdle>false</RunOnlyIfIdle>\n"
      ∷ "    <WakeToRun>false</WakeToRun>\n" ∷ "    <ExecutionTimeLimit>PT0S</ExecutionTimeLimit>\n"
      ∷ "    <Priority>7</Priority>\n" ∷ "    <RestartOnFailure>\n"
      ∷ "      <Interval>PT1M</Interval>\n" ∷ "      <Count>3</Count>\n"
      ∷ "    </RestartOnFailure>\n" ∷ "  </Settings>\n" ∷ "  <Actions Context=\"Author\">\n"
      ∷ "    <Exec>\n" ∷ "      <Command>" ∷ exe ∷ "</Command>\n" ∷ "    </Exec>\n"
      ∷ "  </Actions>\n" ∷ "</Task>\n" ∷ [])

-- `u16::to_le_bytes` of each unit
unfoldable pub le_bytes : List ℕ → List ℕ
le_bytes [] = []
le_bytes (unit ∷ units) = (unit % 256) ∷ (unit / 256 % 256) ∷ le_bytes units

unfoldable pub utf16le_with_bom : String → List ℕ
unfolding le_bytes encode_utf16
utf16le_with_bom text = 0xFF ∷ 0xFE ∷ le_bytes (encode_utf16 text)

unfoldable pub launch_agent_plist : String → String
unfolding xml_escape
launch_agent_plist path =
    let label = launchd_label in
    let exe = xml_escape path in
    format (
      "<?xml version=\"1.0\" encoding=\"UTF-8\"?>\n"
      ∷ "<!DOCTYPE plist PUBLIC \"-//Apple//DTD PLIST 1.0//EN\" \"http://www.apple.com/DTDs/PropertyList-1.0.dtd\">\n"
      ∷ "<plist version=\"1.0\">\n" ∷ "<dict>\n" ∷ "    <key>Label</key>\n" ∷ "    <string>" ∷ label
      ∷ "</string>\n" ∷ "    <key>ProgramArguments</key>\n" ∷ "    <array>\n" ∷ "        <string>"
      ∷ exe ∷ "</string>\n" ∷ "    </array>\n" ∷ "    <key>RunAtLoad</key>\n" ∷ "    <true/>\n"
      ∷ "    <key>KeepAlive</key>\n" ∷ "    <dict>\n" ∷ "        <key>SuccessfulExit</key>\n"
      ∷ "        <false/>\n" ∷ "    </dict>\n" ∷ "    <key>ProcessType</key>\n"
      ∷ "    <string>Interactive</string>\n" ∷ "</dict>\n" ∷ "</plist>\n" ∷ [])

-- The path is put between quotes as it stands.
unfoldable pub systemd_unit : String → String
systemd_unit exe = format (
    "[Unit]\n" ∷ "Description=MuxDeck input daemon\n" ∷ "After=graphical-session.target\n" ∷ "\n"
    ∷ "[Service]\n" ∷ "Type=simple\n" ∷ "ExecStart=\"" ∷ exe ∷ "\"\n" ∷ "Restart=on-failure\n"
    ∷ "RestartSec=5\n" ∷ "\n" ∷ "[Install]\n" ∷ "WantedBy=default.target\n" ∷ [])

abbrev pub udev_rule : String
udev_rule = format (
    "# MuxDeck: let members of the `input` group open /dev/uinput for writing.\n"
    ∷ "KERNEL==\"uinput\", GROUP=\"input\", MODE=\"0660\"\n" ∷ [])
