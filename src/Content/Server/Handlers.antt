-- ===== src/Content/Server/Handlers.antt =====
-- content_service.cpp: what the requests do to the contents.
use oink_judge.Prelude.{String, false, ◌&&◌, ◌≡◌, ◌≢◌, some, List, ◌==◌, string_eq, arith}
use oink_judge.Prelude.Dict.{lookup, insert}
use oink_judge.Content.Scanner.{Directory}
use oink_judge.Content.Server.{
  RpcStatus, accepted_ok, refused, Contents, find_content, put_content, internal, Request, creation,
  change_of_content, deletion, change_of_mode, new_content,
}

-- A request that is refused with a status other than INTERNAL has changed nothing.
abbrev pub KeepsIfRefused : Contents → Contents × RpcStatus → Type 0
KeepsIfRefused contents (contents', accepted_ok) = Unit
KeepsIfRefused contents (contents', refused code message) = code ≢ internal → contents' ≡ contents

-- One content at most is not as before.
abbrev pub KeepsOthers : String → String → Contents → Contents → Type 0
KeepsOthers content_type content_id contents contents' =
    (t i : String)
    → (content_type == t && content_id == i) ≡ false
    → find_content contents' t i ≡ find_content contents t i

abbrev IsTidy : String → String → Contents → Contents × RpcStatus → Type 0
IsTidy content_type content_id contents r =
    KeepsIfRefused contents r × KeepsOthers content_type content_id contents r.0

pub put_content-some :
    (contents : Contents) (content_type content_id : String) (directory : Directory)
    (ids : List (String × Directory))
    → lookup content_type contents ≡ some ids
    → put_content contents content_type content_id directory
      ≡ insert content_type (insert content_id directory ids) contents
unfolding put_content
put_content-some contents content_type content_id directory ids e = ground arith

-- What a request names: the type and the id of a content.
abbrev pub target : Request → String × String
target (creation content_type content_id path messages) = (content_type, content_id)
target (change_of_content content_type content_id path messages) = (content_type, content_id)
target (deletion content_type content_id path) = (content_type, content_id)
target (change_of_mode content_type content_id path permissions) = (content_type, content_id)
target (new_content content_type content_id) = (content_type, content_id)
