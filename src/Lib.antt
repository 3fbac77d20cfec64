-- ===== src/Lib.antt =====
-- par2engine reads PAR2 recovery sets, checks the files that they protect and repairs them. These
-- modules model its Go code and prove what they state of it.
--
-- The program's parts. The package gf16 computes in the field of 2^16 elements, on which the code of
-- Reed and Solomon in the package rs stands. The package par2 parses packets, keeps them in a decoder,
-- scans files for the blocks that they still hold, and has rs rebuild those that are missing. The
-- program cmd/gopar is its command line.
--
-- gf16/gf16.go, gf16/gf16_amd64.go and gf16/gf16_nonamd64.go:
--   Gf16.Poly: the product by shift and exclusive or (`timesPoly`), and `multByTwo`.
--   Gf16.Tables: the log and exp tables, `init`, `Times`, `Inverse`, `Div` and `Pow`.
--   Gf16.MulTable: `calcTable`, the table of one coefficient.
--   Gf16.Nibbles: `mulTable64`, the tables that the vector kernels read.
--   Gf16.Slice: the scalar kernels, the dispatch to vector kernels, `MulByteSliceLE` and
--   `MulAndAddByteSliceLE`.
--   Gf16.Field: the operations that rs calls, as an interface with laws, which the package fills.
-- par2/packet.go:
--   Par2.Bytes: little-endian numbers and arrays, as encoding/binary reads them.
--   Par2.FileId: `FileIDLess` and `validateFileIDSorted`.
--   Par2.Packet: the bodies of main, IFSC and recovery packets; its children Main, Ifsc and Recovery
--   have the layout that each parser is the inverse of.
--   Par2.FileDesc: `ReadHeader`, `ParseFileDescPacket`, `computeFileID` and `ComputePacketHash`.
--   Par2.Names: `NullTerminate`, `DecodeNullPaddedASCIIString` and `DefangPath`, with `path.Clean`.
-- par2/decoder.go:
--   Par2.Decoder: `streamPAR2Packets`, `handlePacket` and `loadSingleVolumeFile`, on a record of what
--   the decoder keeps of the packets.
--   Par2.Index: `loadIndexFile`, with the sort of the protected files.
--   Par2.Counts: `ShardCounts` and its methods, over the states of files of par2/scan.go.
-- par2/scan.go:
--   Par2.Scan: `initFileIntegrity`, `verifyProtectedFilesHashes` and `detectRenameCandidate`. Its
--   children: Fresh for the states that a scan starts from, Truth for what they tell in the end.
-- par2/repair.go:
--   Par2.Repair: `computeChunkSize`. Its children: Plan for `planRepair`, with Safe for what a plan
--   keeps to, and Install for `install` and `finishRebuiltFiles`, with Verified for what is on disk
--   afterwards.
-- rs/rs.go:
--   Rs.Shards: `analyzeShards`. Rs.Lengths: `validateReconstructInputs`. Rs.Split: `splitForBlock` and
--   the ranges of the goroutines.
--   Rs.Coder: `NewCoderPAR2Vandermonde` and `Reconstruct`. Of its children, Apply, Ranges and Rows
--   follow `applyMatrixParallelData`, Flat and System the matrices of `makeReconstructionMatrix`,
--   Sums and Solution the algebra, Parts and Setting the shards, and Reconstruct puts them together;
--   Generators and Vandermonde follow `initGenerators` and the matrix of the coder.
-- rs/matrix.go:
--   Rs.Matrix: matrices and the two phases of their reduction; Identity: the unit matrix and `Inverse`.
--   Kernel tells what a search for a pivot that fails shows of the columns. Its other children follow
--   a pair of matrices through the row operations.
-- Base has the names that all modules share, Bits the laws of exclusive or, and Tests the theorems at
-- concrete inputs.
--
-- How it is modelled. Words and bytes are natural numbers with their bounds as hypotheses, and every
-- wrap-around is written out. A slice is a list, an array that is indexed is a function, and a Go map
-- is an association list. A panic or an error is a value. A method that changes its receiver returns
-- the new one, beside its error where it has one. An int has 64 bits.
--
-- Bounds and fuel. The product runs on 16 units, as a word has 16 bits, and the two loops of
-- `calcTable` on 8, as `j` doubles from 1 to 256. The dispatch recurs once, on fewer bytes than a
-- block. The loop over packets has a unit for each byte of the file and one more, as a round consumes
-- a header of 64 bytes at least.
--
-- What is not modelled. The vector kernels are assembly (gf16/gf16_amd64.s, gf16/gf16_avx2.s): they
-- are parameters that are taken to do what their documentation says. MD5 is a parameter of which
-- nothing is assumed. Log lines, locks, cancellation and the opening of files are left out of the
-- decoder. In rs the context is taken not to be cancelled and the host to be little-endian, and the
-- goroutines, which write ranges that lie side by side, run one after the other. In the repair the
-- operating system is a parameter that tells which operations fail, and protected files are taken to
-- have different names. The rest of the decoder, the chunks and the renames of the repair
-- (par2/repair.go), the search for blocks (par2/scan.go), the checksums (par2/checksummer.go and
-- par2/crc_table.go) and the package cmd are not modelled.
pub mod Base
pub mod Bits
pub mod Gf16
pub mod Par2
pub mod Rs
pub mod Tests
