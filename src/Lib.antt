-- ===== src/Lib.antt =====
-- gumble, a Go client library for the Mumble voice chat protocol.
--
-- The client keeps a mirror of the server's users and channels. A goroutine reads packets from the
-- control connection (gumble/conn.go), looks each packet's type up in a table of handlers
-- (gumble/client.go, gumble/handlers.go), and the handler parses it, changes the mirror while it holds
-- the mutex `volatile` (gumble/rpwmutex.go), and calls the listeners of the application. Methods of
-- Channel and User (gumble/channel.go, gumble/user.go) send requests, which the server answers with
-- packets to all clients. Audio packets carry numbers as varints (gumble/varint).
--
-- Files:
--   Prelude       names and lemmas on lists, bits and int64 that the other modules share.
--   Map           Go maps with uint32 keys as association lists, and heaps of objects.
--   Varint        gumble/varint: Encode and Decode on byte lists. Wire is an encoder without a slice,
--                 which Encode and Decode are compared with.
--   Client        gumble/client.go, channel.go, user.go, userstats.go: the client's state. Pointers are
--                 numbers into two heaps, since handlers change users and channels through aliases.
--     Events      gumble/event.go, and what events hold: text messages, ACLs, context actions, bans,
--                 registered users, audio packets.
--     Monad       the handlers' effects: an outcome is a return, an error, a panic, or a goroutine
--                 that is blocked for ever.
--     Graph       the changes of the graph of users and channels that the handlers make.
--     Consistent  its invariant.
--     ChannelState, ChannelRemove, UserState, UserRemove   the four handlers of the graph, whole.
--     PermissionQuery, Notices, UserList, Bans   handlers of permissions, text messages, denials, the
--                 server's configuration, registered users and bans, with the encoders of
--                 gumble/textmessage.go, userlist.go and bans.go.
--     Sync        handleVersion, handleReject, handleServerSync, handleCodecVersion,
--                 handleSuggestConfig. What DialWithDialer gets from the channel `connect` is the field
--                 `dial`.
--     ContextActions   handleContextActionModify, gumble/contextactions.go and contextaction.go.
--     AccessControl    handleACL, handleQueryUsers, and the encoder of gumble/acl.go.
--     Stats       handleUserStats.
--     Tunnel      handleUDPTunnel: an audio packet, on its way to the audio listeners.
--     Ping        handlePing, and the window of times that it keeps.
--     Session     readRoutine and Disconnect of gumble/client.go: all the handlers, run on the packets
--                 of a connection. Handshake is about one that carries a ServerSync packet.
--     Sound, Safety   how handlers end.
--     Texts       equality of strings.
--     Quiet       what handlers leave alone of the life of the connection.
--     Samples     small clients for the tests.
--   Listeners     gumble/listeners.go and audiolisteners.go: doubly linked lists in a heap. Refinement
--                 compares them with lists, Dispatch is about the loops that call the listeners, and
--                 Audio and Forward are about the list of audio listeners.
--   Dial          DialWithDialer and pingRoutine of gumble/client.go: the client that is made, the wait
--                 for the handshake, and the pings.
--   Outgoing      AudioOutgoing of gumble/client.go and writeAudio of gumble/audio.go: the packets of a
--                 stream of buffers.
--   Stream        gumbleffmpeg/stream.go: the states of a stream as a step relation. Play has its methods
--                 as functions, and the sources of gumbleffmpeg/source.go.
--   Openal        gumbleopenal/stream.go: the buffers of the playback goroutine, and in Source the
--                 methods and goroutines that capture, as a step relation.
--   Util          gumbleutil/listener.go, listenerfunc.go, bitrate.go, acl.go (Groups) and
--                 textmessage.go (PlainText).
--   UdpPing       gumble/ping.go: Ping, on what it sends and reads in any order.
--   Targets       gumble/voicetarget.go, accesstokens.go and permission.go.
--   ChannelPath   gumbleutil/channel.go, with the way back by Channels.Find of gumble/channels.go.
--   Mutex         gumble/rpwmutex.go as a step relation.
--   Conn          gumble/conn.go: frames and audio packets on byte lists.
--   Protocol      the message numbers of WriteProto, and the table of handlers.
--   Requests      gumble/channel.go, gumble/user.go: requests as packets.
--   Version       gumble/version.go, and packSemver and the Version packet of gumble/client.go.
--
-- Parameters: protobuf's Unmarshal is a function from bytes to an optional packet, and a packet has
-- the fields that its handler reads. Sscanf and Sprintf are functions on text. Listeners are code of
-- the application, so the events are logged in the state of the client instead of being delivered,
-- and what a listener does to the list that it is on is a function. The parser of times, the masks of
-- package net, the parser of certificates, the clock, the operations of float32, the registered codec
-- with its encoder and decoders, and the number of the denial H9K in the generated code, are parameters
-- too. The calls on an OpenAL source are a record of operations with the laws of its manual, the tokens
-- of a text message are what the XML decoder gives, and the packets of Ping come with their times.
--
-- Bounds: a number on the wire is a native natural below its width where the code relies on it, and
-- int64 is a signed integer with that range. The loops are over lists, and Encode and Decode recurse
-- on their slices. Four loops run on fuel, of which each step takes one item, packet or channel:
-- that over the linked listeners on two more than there are items, that over the audio listeners on as
-- much as items were made, that of readRoutine on one more than there are packets, and that of
-- ChannelPath on as much as there are channels from the root on.
--
-- Not modelled: the TLS connection and the clock of DialWithDialer, of which only the times are seen;
-- gumble/MumbleProto is generated; the ffmpeg process of gumbleffmpeg, the sink device of gumbleopenal,
-- opus, the command line start of gumbleutil and cmd drive other programs and libraries.
pub mod Prelude
pub mod Map
pub mod Varint
pub mod ChannelPath
pub mod Client
pub mod Mutex
pub mod Outgoing
pub mod Dial
pub mod UdpPing
pub mod Targets
pub mod Util
pub mod Openal
pub mod Stream
pub mod Version
pub mod Conn
pub mod Protocol
pub mod Requests
pub mod Listeners
