-- ===== src/Circular.antt =====
-- CircularBuffer (collection/CircularBuffer.h), which is not part of this repository: the operations
-- that the drivers of the BG96 and the ESP8266 call, and what these drivers rely on.
pub mod Parts
pub mod Conserves
pub mod Draining
use libcomms.Base.{ℕ, ◌≤◌, ◌≡◌, [], ◌++◌, Bytes, length, take, drop}

pub record CircularBuffer : Type 1 where
  pub Buffer : Type 0
  -- The constructor, with the capacity.
  pub created : ℕ → Buffer
  pub size : Buffer → ℕ
  -- `store`, with the number that it answers.
  pub store : Bytes → Buffer → Buffer × ℕ
  -- `retrieve` of a number of bytes: two parts, either of which may be missing or empty.
  pub retrieve : ℕ → Buffer → Bytes × Bytes
  pub declare_read : ℕ → Buffer → Buffer
  -- The bytes that wait, the oldest first.
  pub content : Buffer → Bytes
  pub created_content : (capacity : ℕ) → content (created capacity) ≡ []
  pub size_content : (b : Buffer) → size b ≡ length (content b)
  pub store_content :
      (bytes : Bytes) (b : Buffer)
      → (more : Bytes) × (content (store bytes b).0 ≡ content b ++ more)
  pub retrieve_content :
      (n : ℕ) (b : Buffer) → n ≤ size b → (retrieve n b).0 ++ (retrieve n b).1 ≡ take n (content b)
  pub declare_read_content :
      (n : ℕ) (b : Buffer) → n ≤ size b → content (declare_read n b) ≡ drop n (content b)
