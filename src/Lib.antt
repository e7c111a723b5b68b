-- ===== src/Lib.antt =====
-- The DeepFlow WASM plugin SDK for Go (sdk/): the code between the DeepFlow agent and a plugin that
-- parses protocols.
--
-- The agent calls the plugin's exported functions (sdk/abi_export.go). Each reads a context that the
-- agent serialized into a buffer (sdk/serde.go), hands it to the plugin, an implementation of the
-- interface Parser (sdk/parser.go), and sends the results of the plugin's action back, as protobuf
-- messages (sdk/pb/) in frames of their own (sdk/serde.go). The plugins in example/ are such
-- implementations.
--
-- The files, and the code that each is about:
--   Prelude      numbers, integers, lists, texts, Boolean tests and the binary digits of `bit_or`
--   Log          sdk/log.go: a constructor for each call that logs
--   Go           the language: Result is what a call comes to (a value, nil or an error with what was
--                logged, or a panic); Slices, Copy and Binary are slice expressions, copy and
--                encoding/binary; Reads combines them;
--                Ints has ints of 32 bits, Strings what is used of strings and strconv, Lines
--                ReadLine of bufio
--   Host         sdk/host.go: constants, contexts and results
--   Serde        sdk/serde.go: ParseCtx, HttpReq, HttpResp and CustomMessage are the deserialize
--                functions, each with the format that it accepts; Str is writeStr; Strings the loop of
--                deserializeHttpReqCtx; L7Info serializeL7ProtocolInfo, with the message that it makes
--                (Message, Status) and the framing as a specification (Frames, Split)
--   Pb           sdk/pb/WasmPluginApi.pb.go and WasmPluginApi_vtproto.pb.go: Messages are the structs,
--                Size is SizeVT, Marshal the three marshalling methods over the combinators of Writer,
--                Format the wire format as a specification; Wire and Lengths relate them;
--                Unmarshal is UnmarshalVT of three messages, with Total and RoundTrip
--   Agent        sdk/abi_import.go: the agent, and computations over its state; Payload is GetPayload,
--                and Keeps has predicates on its state that computations keep
--   Parser       sdk/parser.go: actions, hooks, the interface of a plugin, and DefaultParser
--   Abi          sdk/abi_export.go: Export has the exported functions, and Outcome, Handlers, Refused,
--                Status, Answers and Safe say what they come to; Bounds and Keeps what they leave of
--                the agent's state, and Session lets the agent make any calls of them
--   Plugin       example/: Uprobe is go_http2_uprobe/go_http2_uprobe.go, Krpc krpc/krpc.go, Http.Hook
--                http/http.go, Http.Rewrite http_status_rewrite/http_status_rewrite.go, Dns dns/dns.go,
--                Dubbo dubbo/dubbo.go, Nrpc nats/nats.go, Zmtp zmtp/zmtp.go, Llm
--                http_streaming_llm/llm.go and LlmTest http_streaming_llm/llm-test.go; Stateful puts
--                the state of a plugin beside the agent's, Load has the main functions and SetParser,
--                and Calls, Dns.Calls, Http.Rewrite.Whole and Keeps are about whole calls of the agent
--                on plugins
--   Gen          example/nats/protoc-gen-demo/: the names of main.go; Output is goFileName, the functions
--                of path that it calls, and the template of tmpl.go as text/template prints it; Main is
--                main between the request and the response; Names, Sound and Safe are
--                about them
--   Tests        concrete runs, and the theorems at concrete inputs
--
-- How the code is modelled. A byte, and an unsigned integer, is a natural number; a sum that the
-- source takes in uint32 or uint16 has its remainder written out, and an int that may be negative is
-- an integer. A string and a slice of bytes is a list; a pointer that may be nil is an Option. Indexing and
-- slicing out of range panics. A function that the source cuts short with a log and nil is a chain of
-- guards. The exported functions and GetPayload are computations `Vm H A` from a state H of the agent
-- to a value and a state, or nothing, which is a panic. The plugin is such a record of computations; a
-- pointer that it gets to its context becomes the context that it gives back. The global vmParser is
-- the optional plugin that each exported function takes; a main function leaves it set. A plugin with
-- a global map is a Parser over the pair of the agent's state and the map, and a map is a list of keys
-- and values. What plugins embed is `default_parser`, from which a parser differs in the methods that
-- it declares.
--
-- Parameters. The agent's functions are any functions on its state (HostFunctions). The varints of
-- protohelpers (github.com/planetscale/vtprotobuf) are a record Varint: EncodeVarint writes an
-- encoding in front of an offset, and SizeOfVarint is its length; Tests.Data has an instance. Its Skip
-- is a record of the same name. The packages that plugins use and the code that their build generates
-- are a record of functions for each plugin.
--
-- Bounds. The loop of UnmarshalVT runs on fuel, as many rounds as there are bytes, and
-- Pb.Unmarshal.Total.unmarshal_ends shows that this is enough. All other loops go over lists, four
-- times over the strings of a request, ten times over the bytes of a varint, 4096 times over the buffer
-- of ReadLine, or twenty times over the digits of a number. The buffers of 65536 and 1024 bytes are
-- those of the source. An int of UnmarshalVT, and of the HTTP/2 uprobe plugin, has 32 bits, as in
-- TinyGo's WebAssembly. The sums of ints in SizeVT and in serializeL7ProtocolInfo have no bound: results
-- whose encoding takes 2^31 bytes or more are outside the model. onHttpResp fills the status in a copy
-- of the plugin's response, where the source writes through the plugin's pointer, so that a plugin that
-- keeps a response and returns it again is outside the model too.
--
-- Not modelled: the text of log messages and errors; the capacity of a slice beyond its length;
-- CloneVT, EqualVT, UnmarshalVTUnsafe, the UnmarshalVT of the messages that the SDK only sends, and the
-- Strict variants of the marshalling methods; the generated reflection code; in
-- example/http_streaming_llm what does not compile: the two files declare the same names, OnCheckPayload
-- of llm.go and checker of llm-test.go return other numbers of results than they declare, and *llmParser
-- does not implement the interface Parser, so that only OnParsePayload of both and checker of llm.go are
-- modelled, with what has the same text in both taken from llm.go; in example/nats/protoc-gen-demo, reading
-- and parsing the request and printing the response. The generator gets no nil pointer but that of a
-- file's name.
pub mod Prelude
pub mod Log
pub mod Go
pub mod Host
pub mod Serde
pub mod Pb
pub mod Agent
pub mod Parser
pub mod Abi
pub mod Plugin
pub mod Gen
pub mod Tests
