-- ===== src/Client/ChannelChange.antt =====
-- gumble/event.go: the bits of ChannelChangeType.
use gumble.Prelude.{ℕ}

abbrev pub created : ℕ
created = 0x1

abbrev pub removed : ℕ
removed = 0x2

abbrev pub moved : ℕ
moved = 0x4

abbrev pub name : ℕ
name = 0x8

abbrev pub links : ℕ
links = 0x10

abbrev pub description : ℕ
description = 0x20

abbrev pub position : ℕ
position = 0x40

abbrev pub permission : ℕ
permission = 0x80

abbrev pub max_users : ℕ
max_users = 0x100
