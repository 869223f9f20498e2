-- ===== src/AppController.antt =====
-- AppController and AppService, and RabbitMQService.publish, which puts a task on task_queue.
use bolt_bet.Base.{String, ◌∷◌}
use bolt_bet.Model.Entities.{Body, World}
use bolt_bet.Model.Action.{Action, Env, ◌>>◌, external, modify, publish}
use bolt_bet.Http.{Response, success, hello, queued, respond}

-- `AppService.getHello`
abbrev pub greeting : String
greeting = "Hello World!"

abbrev pub get_hello : World → Response × World
get_hello w = (success 200 (hello greeting), w)

unfoldable pub publish_task : Env → Body → Action (Unit {0})
publish_task env body = do
  external env publish
  modify λ w. record w { task_queue = body ∷ w.task_queue }

abbrev pub publish_message : Env → Body → World → Response × World
publish_message env body w = respond 201 (λ _. queued body) (publish_task env body w)
