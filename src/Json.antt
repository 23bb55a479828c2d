-- ===== src/Json.antt =====
-- The JSON parser of src/json.cpp, over a document that is a list of bytes. The handlers of an
-- element are an interface; `std::from_chars` is a parameter.
pub mod Text
pub mod Parser
