-- ===== src/Client/UserChange.antt =====
-- gumble/event.go: the bits of UserChangeType.
use gumble.Prelude.{ℕ}

abbrev pub connected : ℕ
connected = 0x1

abbrev pub disconnected : ℕ
disconnected = 0x2

abbrev pub kicked : ℕ
kicked = 0x4

abbrev pub banned : ℕ
banned = 0x8

abbrev pub registered : ℕ
registered = 0x10

abbrev pub unregistered : ℕ
unregistered = 0x20

abbrev pub name : ℕ
name = 0x40

abbrev pub channel : ℕ
channel = 0x80

abbrev pub comment : ℕ
comment = 0x100

abbrev pub audio : ℕ
audio = 0x200

abbrev pub texture : ℕ
texture = 0x400

abbrev pub priority_speaker : ℕ
priority_speaker = 0x800

abbrev pub recording : ℕ
recording = 0x1000

abbrev pub stats : ℕ
stats = 0x2000
