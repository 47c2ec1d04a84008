-- ===== src/Lib.antt =====
-- A verification library of web3cpp, a C++ library for Ethereum-like chains.
--
-- The program and its parts. The encoding of data is devcore: RLP (include/web3cpp/devcore/RLP.h
-- and src/devcore/RLP.cpp) writes nested byte strings through `RLPStream` and reads them through
-- `RLP`, a view with a cached position; CommonData.h converts numbers, bytes and hex texts; Base64
-- and StateCacheDB stand beside them. The web3 layer (src/Error.cpp, src/Utils.cpp, src/RPC.cpp)
-- checks texts that users give and builds JSON-RPC requests from them; every request reports
-- through an error object.
--
-- The transactions of ethcore (src/ethcore/TransactionBase.cpp) are written and read as RLP and
-- signed with the curve of src/devcrypto/Common.cpp.
--
-- The files.
-- Common: helpers, results with exceptions (Outcomes), lists over native numbers (Lists),
-- big-endian conversions (BigEndian).
-- Rlp: the constants. Rlp.Stream is `RLPStream`: the buffer and the stack of open lists, each with
-- the items it still waits for and its position. Rlp.Item is the specification, a tree of strings
-- with its canonical encoding, and Rlp.Item.Refinement relates the writer to it. Rlp.View is `RLP`:
-- a view is its bytes, and `length`, `payload`, `items`, `toInt` have the names length_of, payload,
-- items, to_int. Rlp.Index is `operator[]` with its three mutable fields as explicit state, the
-- iterators and `toVector`.
-- DevCore: Hex, Base64 and StateCache. DevCore.Nibbles is the trie keys of TrieCommon.h and
-- src/devcore/TrieCommon.cpp, slices of nibbles and the hex prefix encoding: RoundTrip and Joined read
-- the encoding back, Slices is about order and prefixes.
-- Web: Errors is the class Error, Texts and Utils are the text utilities, with children for
-- addresses, bytes and amounts, Platform holds the third-party code, and Rpc the requests:
-- Rpc.State for accounts, Rpc.Blocks for hashes and numbers, Rpc.Objects for json objects,
-- Rpc.Filters, Rpc.Work. Rpc.Calls is the type of all checked requests but those with filter
-- options; Rpc.Replies, Rpc.Returns, Rpc.Numbers and Rpc.Refusals are about their answers.
-- Web.Solidity is src/Solidity.cpp, the packing of call data as hex texts: the types of a function,
-- in Pack the packing of values and arrays, in Multi `packMulti`. Pack.Reading reads them back as the ABI
-- describes; Multi.Layout gives the parts of the result, heads and tails, to which Multi.Whole
-- relates it; Multi.Abi is a reader of the arguments of a call by the ABI, and Multi.Meaning relates what it
-- finds to the arguments.
-- Web.Contract is src/Contract.cpp: the methods that an interface declares, in Call the two operators, and in
-- Arrays their arrays of bytes and texts. Contract.Placed and Placed.Whole relate the data of a call to
-- Multi.Layout, with the sizes of Contract.Sizes; Contract.Elements and Contract.Meaning relate it to the reader
-- of Multi.Abi; Contract.Refused is about functions without inputs.
-- Ledger is src/ledger/encoding.cpp, messages to a hardware wallet: Path reads derivation paths, Frames
-- cuts a message into frames of 65 bytes, Replies reads what comes back. Frames.Received is a device
-- that collects frames, Frames.Filled and Frames.Sent follow the loops that fill them.
--
-- EthCore: Curve is signatures; Transaction is `TransactionBase` and the writing of its RLP,
-- Transaction.Parse its reading, Transaction.Sender its hash, signing and sender. Transaction.Wire
-- relates what is written to the list of its strings, and Transaction.Digest what is hashed;
-- Transaction.Fields and Transaction.RoundTrip read it back.
--
-- State and failure. A method that changes an object takes and returns it. An exception is
-- `throws`, a read out of bounds `undefined`. A loop with a bound of rounds that is too small would
-- be `stuck`; the loops take the length of their data, and each round of `items` drops a byte at
-- least. The loop that counts bytes of a number takes the number itself as its bound.
--
-- Machine integers. Sizes are below 2 ^ 64, and the bound 2 ^ 64 - 257 on an encoding keeps the
-- sums of `length` in range. Bytes are numbers below 256, and a conversion to a byte is `% 256`.
-- Two loops have a smaller index: that of `fromHex` holds below 2 ^ 32 characters, and `from_hex` is
-- `stuck` from there on; that of `fromBase64` overflows at 2 ^ 31, where `from_base64` is `undefined`.
--
-- Parameters. json values (nlohmann), 256-bit numbers (boost) and keccak (ethash) are the fields of
-- `Platform`; secp256k1 and the keccak that transactions use are the fields of `Curve`, with what
-- the library documents in `CurveLaws` and `RecoveryLaws`; `DecimalLaws` says that decimal output
-- has digits only, `KeccakLaws` that a digest has 32 bytes, `HexLaws` that the hex text of a number
-- below 2 ^ 256 has at most 64 digits and is read back. The conversion of digits
-- to a number in a path (boost) is the argument `read_u32`, and `JsonItems` holds what a contract
-- asks of json beyond `Platform`.
--
-- Not modelled: ciphers and hash functions, the network, files and the database, the transport to the
-- hardware wallet, all of which is I/O or calls of libraries; the hash of a trie and its database, wallets
-- and the manager of keys.
pub mod Common
pub mod Rlp
pub mod DevCore
pub mod EthCore
pub mod Ledger
pub mod Web
