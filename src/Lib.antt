-- ===== src/Lib.antt =====
-- The HE transformer: an nGraph backend that runs a network on values encrypted with SEAL's CKKS
-- scheme, with a client that holds the key and a server that computes. This library models parts of
-- the C++ code under src/ of the repository and proves what makes them correct.
--
-- A value is an `HEType`: plaintext values, or a shared pointer to a ciphertext. Kernels
-- (src/seal/kernel) compute on objects and vectors of them; before two ciphertexts are combined they
-- are brought to one level of the modulus chain and one scale (src/seal/seal_util.cpp). A tensor
-- (src/he_tensor.cpp) holds a vector of values, packed along its first axis or not, and is sent
-- between client and server in protocol messages over TCP (src/tcp). The server sends its encryption
-- parameters; the client (src/seal/he_seal_client.cpp) makes keys and sends them; the server
-- (src/seal/he_seal_executable.cpp) asks for the inputs, sends the client what only it can compute, and
-- at the end the results.
--
-- Files, and what they model:
--   * Base: shared names, Boolean tests, lists over native numbers, and `Result`, what a call comes
--     to: a value, an exception, or undefined behaviour.
--   * SealUtil/Words: the loops over 64-bit words of src/seal/seal_util.cpp
--     (multiply_poly_scalar_coeffmod64), mod_reduce_seal.hpp and add_seal.cpp, with `% 2 ^ 64`;
--     SealUtil/Residues: the residues of one rounded value.
--   * AbyUtil: split_vector of src/aby/aby_util.hpp; Aby: the rectifier as a garbled circuit:
--     src/aby/kernel/relu_aby.hpp, the executors of the server and of the client, and their loops over
--     the parties.
--   * HeUtil: element types, flags and complex packing of src/he_util.hpp and src/he_util.cpp.
--   * Backend: what the code calls of SEAL and of the floating-point library, as a record.
--   * Machine: `HEType` on an explicit store, where objects and ciphertexts have addresses, so that
--     arguments of a kernel can be one object; Machine/Wire: its messages.
--   * Cipher: src/seal/seal_util.cpp: additions and products by one value, the matching of levels,
--     encoding and encryption; rescaling and lazy reduction.
--   * Scalar: the element-wise kernels, on plaintexts, on objects and on vectors.
--   * Pad: pad_seal, on signed coordinates.
--   * Reduce: max_seal, max_pool_seal and sum_seal over the same transforms; Reduce/AvgPool:
--     avg_pool_seal; Reduce/Dot: dot_seal; Reduce/Convolution: convolution_seal; Reduce/Softmax:
--     softmax_seal, batch_norm_inference_seal and constant_seal.
--   * Moves: the kernels that only move elements, over nGraph's coordinate transforms.
--   * Tensor: src/he_tensor.cpp: shapes, packing, the host's memory, and the messages.
--   * Tcp: src/tcp: the header of a message, the reads of client and session, and the write queue as
--     events that can come in any order.
--   * Json: what the code calls of nlohmann's `json`, as a record.
--   * EncryptionParameters: src/seal/he_seal_encryption_parameters.cpp: validation, defaults, scales;
--     Wire: the bytes that are sent; Config: the configuration.
--   * Configuration: set_config and update_encryption_parameters of src/seal/he_seal_backend.cpp.
--   * Protocol: the messages of src/protos/message.proto, and the names of functions in them.
--   * Client: src/seal/he_seal_client.cpp: its state, its handlers, and the dispatch of messages.
--   * Server: the part of src/seal/he_seal_executable.cpp that talks to the client: keys, inputs,
--     rectifiers, maxima and results. What a thread does before and after a wait are two definitions.
--     Handshake/Whole: both sides of the handshake.
--   * Passes: src/pass: Annotations, the propagation of encrypted and packed annotations through the
--     graph; Liveness, after which node a tensor is freed; Compile, compile and is_supported of
--     src/seal/he_seal_backend.cpp with these passes.
--   * Calls: `generate_calls` of src/seal/he_seal_executable.cpp, which calls the kernel of an operation.
--   * Executor: `call` of src/seal/he_seal_executable.cpp: Inputs, what it does before its loop; Loop,
--     the loop over the operations and its map of tensors; Create, the tensors that it makes.
--   * Tests: a backend that can be evaluated, and the theorems at concrete inputs.
--
-- Numbers are the native ones; `size_t` arithmetic that cannot leave its range is written plainly,
-- and words are reduced modulo 2 ^ 64 where the code lets them wrap. Loops are structural
-- recursions on the count of their rounds; `read_stream` takes fuel, one unit for each read that
-- completes, and `reflect_loop` one for each round, and their theorems give the fuel that is
-- enough. OpenMP loops are modelled in the order of the indices. An access outside a vector, a
-- null pointer and a division by zero are the error `undefined`. The loops of
-- `mod_reduce_zero_centered`, on values of `double`, have a number of rounds as a parameter; one that does
-- not end by then is `undefined`.
--
-- Not modelled: SEAL, nGraph, ABY, protocol buffers and Boost, which are parameters where the code
-- needs them; the checks of the scale before one value is encoded in src/seal/seal_util.cpp, so that
-- this encoding is a parameter where it is called; src/pass/he_fusion.cpp, which builds patterns for
-- nGraph's matcher; the context and the keys of the backend; logging and timers, the network's
-- connections and threads, and in client and server the calls of the executors of src/aby.
pub mod Base
pub mod Json
pub mod SealUtil
pub mod AbyUtil
pub mod HeUtil
pub mod Backend
pub mod Machine
pub mod Cipher
pub mod Scalar
pub mod Moves
pub mod Pad
pub mod Reduce
pub mod Tensor
pub mod Tcp
pub mod EncryptionParameters
pub mod Protocol
pub mod Configuration
pub mod Passes
pub mod Calls
pub mod Executor
pub mod Aby
pub mod Client
pub mod Server
pub mod Tests
