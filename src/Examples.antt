-- ===== src/Examples.antt =====
-- The theorems applied to concrete data, and runs of the definitions on it.
mod Code
mod Channel
mod Responses
mod Streams
mod Zones
mod Texts
mod Packets
mod Numbers
mod Digest
mod Signatures
mod SignedStream
mod Updates
mod Encoding
mod Session
mod SessionCode
mod UpdateAnswers
