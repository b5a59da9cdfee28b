-- ===== src/Tests.antt =====
-- Runs of the model at concrete inputs.
mod Linear
mod TypedCache
mod Codecs
mod Formats
mod Maps
mod Lines
mod DedupCache
mod DedupPuts
mod Files
mod Chains
mod Built
mod Conf
mod Writers
mod Copied
mod Floats
