-- ===== src/OpenFile/Description.antt =====
-- What the kernel keeps of an open file, and how `read`, `write` and `lseek` use it.
use linux_system_programming.Base.{length, take, drop, replicate, ℕ, List, ◌+◌, ◌-◌, [], ◌++◌}
use linux_system_programming.OpenFile.{Whence, seek_set, seek_cur, seek_end}

pub record Description : Type 0 where
  pub content : List ℕ
  pub offset : ℕ

-- A file that O_TRUNC has emptied
abbrev pub emptied : Description
emptied = record { content = []; offset = 0 }

-- `write` of these bytes at the offset: they replace what stands there, after zeros where the offset is
-- behind the end.
abbrev pub put : List ℕ → Description → Description
put bytes d = record {
  content =
      take d.offset (d.content ++ replicate (d.offset - length d.content) 0)
      ++ (bytes ++ drop (d.offset + length bytes) d.content);
  offset = d.offset + length bytes;
}

-- What a `read` of so many bytes can give at most
abbrev pub ahead : (at_once : ℕ) → Description → List ℕ
ahead n d = take n (drop d.offset d.content)

-- Where `lseek` goes
abbrev pub target : ℕ → Whence → Description → ℕ
target n seek_set d = n
target n seek_cur d = d.offset + n
target n seek_end d = length d.content + n
