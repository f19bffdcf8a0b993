-- ===== src/Gateway.antt =====
-- The native gateway, src/native/dli_gateway_cpp: the stage map, the checks of its partition graph,
-- and the generation loop that routes frames along it.
pub mod Config
pub mod Graph
pub mod StageClient
pub mod Routing
pub mod Generation
pub mod Tokenizer
