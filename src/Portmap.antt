-- ===== src/Portmap.antt =====
-- tools/portmapgen: the generator of port map classes. The parser reads a file into port maps and copied
-- text, the generator lays out the structures and puts the parts in order again.
pub mod Text
pub mod Uc
pub mod Description
pub mod Layout
pub mod Merge
pub mod Tokenizer
pub mod Parser
