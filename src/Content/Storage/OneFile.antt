-- ===== src/Content/Storage/OneFile.antt =====
-- content_storage.cpp: syncFile.
use oink_judge.Prelude.{Bool, String, ◌==◌, string_eq}
use oink_judge.Content.Manifest.{Manifest}
use oink_judge.Content.Scanner.{Scanner}

-- Paths compared as texts
abbrev by_text : String → String → Bool
by_text a b = a == b
