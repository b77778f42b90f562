-- ===== src/Tests/Ring.antt =====
-- A circular buffer over a list, to run the drivers that hold one: `retrieve` gives the first byte
-- and the others as its two parts.
use libcomms.Base.{refl, [], ◌++◌, Bytes, length, take, drop, take-append-drop}
use libcomms.Circular.{CircularBuffer}

abbrev pub ring : CircularBuffer
ring = record {
  Buffer = Bytes;
  created = λ capacity. [];
  size = λ b. length b;
  store = λ bytes b. (b ++ bytes, length bytes);
  retrieve = λ n b. (take 1 (take n b), drop 1 (take n b));
  declare_read = λ n b. drop n b;
  content = λ b. b;
  created_content = λ capacity. refl;
  size_content = λ b. refl;
  store_content = λ bytes b. (bytes, refl);
  retrieve_content = λ n b h. take-append-drop 1 (take n b);
  declare_read_content = λ n b h. refl;
}
