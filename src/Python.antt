-- ===== src/Python.antt =====
-- What the modelled code takes from Python's runtime and standard library without implementing
-- it: floats, their texts, `str.upper`, SHA-256 over canonical JSON, `Decimal` and `datetime`.
pub mod Runtime
pub mod Convert
pub mod Clock
pub mod Sets
pub mod Fixed
